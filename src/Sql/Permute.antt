-- ===== src/Sql/Permute.antt =====
-- What the statements make of a permuted table.
use mathlib.Core.List.{Permᴰ}
use mathlib.Core.Path.{subst}
use mathlib.Core.List.Permᴰ
use bartleby.Prelude.{
  String, Bool, ◌≡◌, ◌≢◌, refl, sym, ◌∙◌, ◌==◌, ◌||◌, List, ◌∷◌, map, arith, All, length, contains,
  Bool-cases, inl, inr,
}
use bartleby.Sql.{select, delete}
use bartleby.Sql.Rows.{Distinct}

or_swap : (a b c : Bool) → (a || (b || c)) ≡ (b || (a || c))
or_swap a b c = ground arith

module _ {A : Type 0} where
  pub length-perm : {xs ys : List A} → Permᴰ xs ys → length xs ≡ length ys
  length-perm Permᴰ.nil = refl
  length-perm (Permᴰ.cons e d) = omega (arith, length-perm d)
  length-perm (Permᴰ.swap e f) = refl
  length-perm (Permᴰ.trans d e) = length-perm d ∙ length-perm e

  pub All-perm {κ} : (P : A → Type κ) {xs ys : List A} → Permᴰ xs ys → All P xs → All P ys
  All-perm P Permᴰ.nil h = tt
  All-perm P (Permᴰ.cons e d) h = (rw (← e) h.0, All-perm P d h.1)
  All-perm P (Permᴰ.swap e f) h = (rw (← f) h.1.0, (rw (← e) h.0, h.1.1))
  All-perm P (Permᴰ.trans d e) h = All-perm P e (All-perm P d h)

  Distinct-swap :
      (key : A → String) (a b : A) (l : List A)
      → Distinct key (a ∷ b ∷ l)
      → Distinct key (b ∷ a ∷ l)
  Distinct-swap key a b l ((ne, ha), (hb, d)) = ((λ same. ne (sym same), hb), (ha, d))

  pub Distinct-perm :
      (key : A → String) {xs ys : List A} → Permᴰ xs ys → Distinct key xs → Distinct key ys
  Distinct-perm key Permᴰ.nil h = tt
  Distinct-perm key (Permᴰ.cons {b} e d) h =
      (All-perm (λ y. key y ≢ key b) d (rw (← e) h.0), Distinct-perm key d h.1)
  Distinct-perm key (Permᴰ.swap {a} {b} {a' = c} {b' = d} {l} e f) h =
      Distinct-swap key d c l
        (subst (λ u. Distinct key (u ∷ c ∷ l)) e (subst (λ u. Distinct key (a ∷ u ∷ l)) f h))
  Distinct-perm key (Permᴰ.trans d e) h = Distinct-perm key e (Distinct-perm key d h)

  pub contains-perm :
      (key : A → String) (k : String) {xs ys : List A}
      → Permᴰ xs ys
      → contains k (map key xs) ≡ contains k (map key ys)
  contains-perm key k Permᴰ.nil = refl
  contains-perm key k (Permᴰ.cons e d) = cc (contains-perm key k d)
  contains-perm key k (Permᴰ.swap {a' = c} {b' = d} e f) =
      rw (e, f) (or_swap (key d == k) (key c == k) _)
  contains-perm key k (Permᴰ.trans d e) = contains-perm key k d ∙ contains-perm key k e

  pub delete-perm :
      (p : A → Bool) {xs ys : List A} → Permᴰ xs ys → Permᴰ (delete p xs) (delete p ys)
  delete-perm p Permᴰ.nil = Permᴰ.nil
  delete-perm p (Permᴰ.cons {a} {b} e d) = rw e (elim (Bool-cases (p b)) [
    | inl hit ↦ rw hit (delete-perm p d)
    | inr miss ↦ rw miss (Permᴰ.cons refl (delete-perm p d))
  ])
  delete-perm p (Permᴰ.swap {a' = c} {b' = d} {l} e f) = rw (e, f) (swapped c d l)
    where
      swapped : (c d : A) (l : List A) → Permᴰ (delete p (d ∷ c ∷ l)) (delete p (c ∷ d ∷ l))
      swapped c d l = elim (Bool-cases (p c)) [
        | inl hit ↦ rw hit (Permᴰ.refl _)
        | inr miss ↦ elim (Bool-cases (p d)) [
          | inl hit ↦ rw (miss, hit) (Permᴰ.refl _)
          | inr both ↦ rw (miss, both) (Permᴰ.swap refl refl)
        ]
      ]
  delete-perm p (Permᴰ.trans d e) = Permᴰ.trans (delete-perm p d) (delete-perm p e)

  pub select-perm :
      (p : A → Bool) {xs ys : List A} → Permᴰ xs ys → Permᴰ (select p xs) (select p ys)
  select-perm p Permᴰ.nil = Permᴰ.nil
  select-perm p (Permᴰ.cons {a} {b} e d) = rw e (elim (Bool-cases (p b)) [
    | inl hit ↦ rw hit (Permᴰ.cons refl (select-perm p d))
    | inr miss ↦ rw miss (select-perm p d)
  ])
  select-perm p (Permᴰ.swap {a' = c} {b' = d} {l} e f) = rw (e, f) (swapped c d l)
    where
      swapped : (c d : A) (l : List A) → Permᴰ (select p (d ∷ c ∷ l)) (select p (c ∷ d ∷ l))
      swapped c d l = elim (Bool-cases (p c)) [
        | inr hit ↦ rw hit (Permᴰ.refl _)
        | inl miss ↦ elim (Bool-cases (p d)) [
          | inr hit ↦ rw (miss, hit) (Permᴰ.refl _)
          | inl both ↦ rw (miss, both) (Permᴰ.swap refl refl)
        ]
      ]
  select-perm p (Permᴰ.trans d e) = Permᴰ.trans (select-perm p d) (select-perm p e)
