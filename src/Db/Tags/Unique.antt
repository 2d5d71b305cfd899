-- ===== src/Db/Tags/Unique.antt =====
-- Proofs about `[...new Set(ids)]` (server/src/db/repositories/tags.ts, server/src/derived/hook.ts).
use bartleby.Prelude.{
  ◌&&◌, not, contains, String, ◌≡◌, ◌↔◌, refl, ◌==◌, List, [], ◌∷◌, arith, eq_iff, eq_self, All,
  Bool-cases, inl, inr,
}
use bartleby.Db.Tags.{unique, unique_from}

unique_from_same :
    (j : String) (js : List String) → (unique_from (j ∷ []) js ≡ []) ↔ All (λ i. i ≡ j) js
unfolding unique_from
unique_from_same j [] = (λ e. tt, λ h. refl)
unique_from_same j (i ∷ is) = elim (Bool-cases (j == i)) [
  | inl same ↦ rw same (
    λ e. (ground (arith, eq_iff j i), (unique_from_same j is).0 e),
    λ h. (unique_from_same j is).1 h.1,
  )
  | inr other ↦ rw other (λ e. cc, λ h. ground (arith, eq_iff j i, eq_self j))
]

-- The first text stays, and it is the only one that stays if there was no other.
pub unique_single :
    (j : String) (js : List String)
    → (rest : List String) × (unique (j ∷ js) ≡ j ∷ rest) × ((rest ≡ []) ↔ All (λ i. i ≡ j) js)
unfolding unique unique_from
unique_single j js = (unique_from (j ∷ []) js, refl, unique_from_same j js)

pub unique-nil : unique [] ≡ []
unfolding unique unique_from
unique-nil = refl

contains-unique_from :
    (x : String) (seen xs : List String)
    → contains x (unique_from seen xs) ≡ (contains x xs && not (contains x seen))
unfolding unique_from
contains-unique_from x seen [] = refl
contains-unique_from x seen (y ∷ ys) =
    ground (arith, eq_iff y x, contains-unique_from x seen ys, contains-unique_from x (y ∷ seen) ys)

pub contains-unique : (x : String) (xs : List String) → contains x (unique xs) ≡ contains x xs
unfolding unique
contains-unique x xs = ground (arith, contains-unique_from x [] xs)
