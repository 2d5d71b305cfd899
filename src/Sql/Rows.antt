-- ===== src/Sql/Rows.antt =====
-- Laws of the statements over tables with a text key: what a read finds after a write.
use bartleby.Prelude.{
  String, Bool, Bool-cases, inl, inr, eq_self, false, refl, ◌++◌, ◌≡◌, ◌≢◌, ◌==◌, none, some, List,
  [], ◌∷◌, arith, eq_iff, if◌then◌else◌, All, All-append,
}
use mathlib.Core.Path.{subst}
use bartleby.Sql.{select, delete, update, find, insert, any}

module _ {A : Type 0} (key : A → String) where
  -- WHERE key = ?
  abbrev pub keyed : String → A → Bool
  keyed k x = key x == k

  pub find-update :
      (k j : String) (f : A → A) (fixes : (x : A) → key (f x) ≡ key x) (xs : List A)
      → find (keyed j) (update (keyed k) f xs) ≡ (
          if k == j
          then elim (find (keyed j) xs) [ none ↦ none | some x ↦ some (f x) ]
          else find (keyed j) xs)
  find-update k j f fixes [] = ground arith
  find-update k j f fixes (x ∷ xs) = ground (
    arith,
    fixes x,
    eq_iff (key x) k,
    eq_iff (key x) j,
    eq_iff (key (f x)) j,
    eq_iff k j,
    find-update k j f fixes xs,
  )

  pub find-insert :
      (j : String) (x : A) (xs : List A)
      → find (keyed j) (insert x xs) ≡ elim (find (keyed j) xs) [
        | none ↦ (if key x == j then some x else none)
        | some y ↦ some y
      ]
  find-insert j x [] = ground arith
  find-insert j x (y ∷ xs) = ground (arith, find-insert j x xs)

  pub find-delete :
      (k j : String) (xs : List A)
      → find (keyed j) (delete (keyed k) xs) ≡ (if k == j then none else find (keyed j) xs)
  find-delete k j [] = ground arith
  find-delete k j (x ∷ xs) =
      ground (arith, eq_iff (key x) k, eq_iff (key x) j, eq_iff k j, find-delete k j xs)

  pub find-keyed : (k : String) (xs : List A) (x : A) → find (keyed k) xs ≡ some x → key x ≡ k
  find-keyed k [] x e = ground arith
  find-keyed k (y ∷ ys) x e = ground (arith, eq_iff (key y) k, find-keyed k ys x)

  -- A primary key.
  abbrev pub Distinct : List A → Type 0
  Distinct [] = Unit
  Distinct (x ∷ xs) = All (λ y. key y ≢ key x) xs × Distinct xs

module _ {A : Type 0} where
  pub select-append :
      (p : A → Bool) (xs ys : List A) → select p (xs ++ ys) ≡ select p xs ++ select p ys
  select-append p [] ys = refl
  select-append p (x ∷ xs) ys = ground (arith, select-append p xs ys)

  -- What is left after a deletion satisfies what every row satisfied.
  pub All-delete : (P : A → Type 0) (p : A → Bool) (xs : List A) → All P xs → All P (delete p xs)
  All-delete P p [] h = tt
  All-delete P p (x ∷ xs) h = ground (arith, All-delete P p xs h.1)

  pub All-update :
      (P : A → Type 0) (p : A → Bool) (f : A → A)
      → ((x : A) → P x → P (f x))
      → (xs : List A) → All P xs
      → All P (update p f xs)
  All-update P p f k [] h = tt
  All-update P p f k (x ∷ xs) h = ground (arith, k x h.0, All-update P p f k xs h.1)

  pub delete_none : (p : A → Bool) (xs : List A) → All (λ x. p x ≡ false) xs → delete p xs ≡ xs
  delete_none p [] h = refl
  delete_none p (x ∷ xs) h = ground (arith, delete_none p xs h.1)

pub Distinct-delete :
    {A : Type 0} (key : A → String) (p : A → Bool) (xs : List A)
    → Distinct key xs
    → Distinct key (delete p xs)
Distinct-delete key p [] d = tt
Distinct-delete key p (x ∷ xs) d =
    ground (arith, All-delete _ p xs d.0, Distinct-delete key p xs d.1)

pub any_absent :
    {A : Type 0} (key : A → String) (k : String) (xs : List A)
    → any (keyed key k) xs ≡ false
    → All (λ x. key x ≢ k) xs
any_absent key k [] e = tt
any_absent key k (x ∷ xs) e = (ground (arith, eq_iff (key x) k), any_absent key k xs (ground arith))

pub All-select :
    {A : Type 0} (P : A → Type 0) (p : A → Bool) (xs : List A) → All P xs → All P (select p xs)
All-select P p [] h = tt
All-select P p (x ∷ xs) h = ground (arith, All-select P p xs h.1)

pub Distinct-select :
    {A : Type 0} (key : A → String) (p : A → Bool) (xs : List A)
    → Distinct key xs
    → Distinct key (select p xs)
Distinct-select key p [] d = tt
Distinct-select key p (x ∷ xs) d =
    ground (arith, All-select _ p xs d.0, Distinct-select key p xs d.1)

-- INSERT under a new key.
pub Distinct-insert :
    {A : Type 0} (key : A → String) (x : A) (xs : List A)
    → any (keyed key (key x)) xs ≡ false
    → Distinct key xs
    → Distinct key (insert x xs)
Distinct-insert key x [] e d = (tt, tt)
Distinct-insert key x (y ∷ ys) e d = (
  All-append _ ys (x ∷ []) d.0 (ground (arith, eq_iff (key y) (key x)), tt),
  Distinct-insert key x ys (ground arith) d.1,
)

pub Distinct-update :
    {A : Type 0} (key : A → String) (p : A → Bool) (f : A → A) (fixes : (x : A) → key (f x) ≡ key x)
    (xs : List A)
    → Distinct key xs
    → Distinct key (update p f xs)
Distinct-update key p f fixes [] d = tt
Distinct-update {A} key p f fixes (x ∷ xs) d = (others xs d.0, Distinct-update key p f fixes xs d.1)
  where
    others :
        (ys : List A)
        → All (λ y. key y ≢ key x) ys
        → All (λ y. key y ≢ key (if p x then f x else x)) (update p f ys)
    others [] h = tt
    others (y ∷ ys) h = (ground (arith, fixes x, fixes y, h.0), others ys h.1)

pub update_absent :
    {A : Type 0} (p : A → Bool) (f : A → A) (xs : List A) → any p xs ≡ false → update p f xs ≡ xs
update_absent p f [] e = refl
update_absent p f (x ∷ xs) e = ground (arith, update_absent p f xs)

-- An update that fixes the key leaves the keys.
pub any-update :
    {A : Type 0} (key : A → String) (k : String) (p : A → Bool) (f : A → A)
    (fixes : (x : A) → key (f x) ≡ key x) (xs : List A)
    → any (keyed key k) (update p f xs) ≡ any (keyed key k) xs
any-update key k p f fixes [] = refl
any-update key k p f fixes (x ∷ xs) = ground (arith, fixes x, any-update key k p f fixes xs)

module _ {A : Type 0} where
  -- A row that is found satisfies what every row satisfies.
  pub find-All :
      (P : A → Type 0) (p : A → Bool) (xs : List A) (x : A) → All P xs → find p xs ≡ some x → P x
  find-All P p (y ∷ ys) x h e = elim (Bool-cases (p y)) [
    | inl hit ↦ subst P (cc (rw hit at e)) h.0
    | inr miss ↦ find-All P p ys x h.1 (rw miss at e)
  ]
  find-All P p [] x h e = cc

  -- Whatever finds a row, its primary key finds it.
  pub find-Distinct :
      (key : A → String) (p : A → Bool) (xs : List A) (x : A)
      → Distinct key xs
      → find p xs ≡ some x
      → find (keyed key (key x)) xs ≡ some x
  find-Distinct key p [] x d e = cc
  find-Distinct key p (y ∷ ys) x d e = elim (Bool-cases (p y)) [
    | inl hit ↦ let same : y ≡ x = cc (rw hit at e) in rw (same, eq_self (key x)) refl
    | inr miss ↦
        let e' = rw miss at e in
        let other = find-All (λ z. key z ≢ key y) p ys x d.0 e' in
        ground (arith, eq_iff (key y) (key x), other, find-Distinct key p ys x d.1 e')
  ]

  -- A read whose test an update does not touch.
  pub find-update_other :
      (p q : A → Bool) (f : A → A) (fixes : (x : A) → p (f x) ≡ p x) (xs : List A)
      → find p (update q f xs)
        ≡ elim (find p xs) [ none ↦ none | some x ↦ some (if q x then f x else x) ]
  find-update_other p q f fixes [] = refl
  find-update_other p q f fixes (x ∷ xs) = ground (arith, fixes x, find-update_other p q f fixes xs)

  pub any-find : (p : A → Bool) (xs : List A) → find p xs ≡ none → any p xs ≡ false
  any-find p [] e = refl
  any-find p (x ∷ xs) e = ground (arith, any-find p xs)
