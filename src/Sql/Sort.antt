-- ===== src/Sql/Sort.antt =====
-- A sorter that meets what is assumed of SQLite's: insertion sort.
use mathlib.Core.List.{Permᴰ}
use mathlib.Core.List.Permᴰ
use bartleby.Prelude.{
  refl, Bool, true, ◌≡◌, List, [], ◌∷◌, arith, if◌then◌else◌, All, All-map_of, Bool-cases, inl, inr,
}
use bartleby.Sql.{IsOrdered, IsPreorder, OrderBy}

module _ {A : Type 0} (le : A → A → Bool) where
  abbrev pub place : A → List A → List A
  place x [] = x ∷ []
  place x (y ∷ ys) = if le x y then x ∷ y ∷ ys else y ∷ place x ys

  abbrev pub insertion_sort : List A → List A
  insertion_sort [] = []
  insertion_sort (x ∷ xs) = place x (insertion_sort xs)

  place-perm : (x : A) (xs : List A) → Permᴰ (place x xs) (x ∷ xs)
  place-perm x [] = Permᴰ.refl _
  place-perm x (y ∷ ys) = elim (Bool-cases (le x y)) [
    | inl here ↦ rw here (Permᴰ.refl _)
    | inr later ↦ rw later (Permᴰ.trans (Permᴰ.cons refl (place-perm x ys)) (Permᴰ.swap refl refl))
  ]

  pub insertion_sort-perm : (xs : List A) → Permᴰ (insertion_sort xs) xs
  insertion_sort-perm [] = Permᴰ.refl _
  insertion_sort-perm (x ∷ xs) =
      Permᴰ.trans (place-perm x (insertion_sort xs)) (Permᴰ.cons refl (insertion_sort-perm xs))

  place-All : (P : A → Type 0) (x : A) (xs : List A) → P x → All P xs → All P (place x xs)
  place-All P x [] p h = (p, tt)
  place-All P x (y ∷ ys) p h = ground (arith, place-All P x ys p h.1)

  place-IsOrdered :
      (pre : IsPreorder le) (x : A) (xs : List A) → IsOrdered le xs → IsOrdered le (place x xs)
  place-IsOrdered pre x [] h = (tt, tt)
  place-IsOrdered pre x (y ∷ ys) h = elim (Bool-cases (le x y)) [
    | inl here ↦ rw here ((here, All-map_of _ _ (λ z yz. pre.trans x y z here yz) ys h.0), h)
    | inr later ↦ rw later (
      place-All (λ z. le y z ≡ true) x ys (pre.total x y later) h.0,
      place-IsOrdered pre x ys h.1,
    )
  ]

  pub insertion_sort-IsOrdered : (xs : List A) → IsPreorder le → IsOrdered le (insertion_sort xs)
  insertion_sort-IsOrdered [] pre = tt
  insertion_sort-IsOrdered (x ∷ xs) pre =
      place-IsOrdered pre x (insertion_sort xs) (insertion_sort-IsOrdered xs pre)

abbrev pub insertion : OrderBy
insertion = record {
  sort = λ {A} le xs. insertion_sort le xs;
  sort-perm = λ {A} le xs. insertion_sort-perm le xs;
  sort-IsOrdered = λ {A} le xs pre. insertion_sort-IsOrdered le xs pre;
}
