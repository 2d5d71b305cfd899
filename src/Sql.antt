-- ===== src/Sql.antt =====
-- The statements of SQLite that the repositories prepare (server/src/db/repositories), over a
-- table that is the list of its rows in insertion order. SQLite's sorter is a parameter:
-- `ORDER BY` fixes no order among rows with equal keys.
pub mod Rows
pub mod Sort
pub mod Permute
use mathlib.Core.List.{Permᴰ}
use bartleby.Prelude.{
  ℕ, String, Bool, true, false, ◌≡◌, ◌||◌, ◌==◌, not, Option, none, some, List, [], ◌∷◌, ◌++◌, ltb,
  leb, nat_eq, if◌then◌else◌, All,
}

module _ {A : Type 0} where
  -- SELECT * … WHERE p
  abbrev pub select : (A → Bool) → List A → List A
  select p [] = []
  select p (x ∷ xs) = if p x then x ∷ select p xs else select p xs

  -- DELETE … WHERE p
  abbrev pub delete : (A → Bool) → List A → List A
  delete p [] = []
  delete p (x ∷ xs) = if p x then delete p xs else x ∷ delete p xs

  -- UPDATE … SET f WHERE p
  abbrev pub update : (A → Bool) → (A → A) → List A → List A
  update p f [] = []
  update p f (x ∷ xs) = (if p x then f x else x) ∷ update p f xs

  -- The first row, as `get` returns it.
  abbrev pub find : (A → Bool) → List A → Option A
  find p [] = none
  find p (x ∷ xs) = if p x then some x else find p xs

  -- INSERT
  abbrev pub insert : A → List A → List A
  insert x xs = xs ++ x ∷ []

  abbrev pub any : (A → Bool) → List A → Bool
  any p [] = false
  any p (x ∷ xs) = p x || any p xs

  -- No row stands before a row that must come first.
  abbrev pub IsOrdered : (A → A → Bool) → List A → Type 0
  IsOrdered le [] = Unit
  IsOrdered le (x ∷ xs) = All (λ y. le x y ≡ true) xs × IsOrdered le xs

-- What an order of `ORDER BY` is.
pub record IsPreorder {A : Type 0} (le : A → A → Bool) : Type 0 where
  pub total : (x y : A) → le x y ≡ false → le y x ≡ true
  pub trans : (x y z : A) → le x y ≡ true → le y z ≡ true → le x z ≡ true

-- SQLite's `ORDER BY`: the same rows, in order.
pub record OrderBy : Type 1 where
  pub sort : {A : Type 0} → (A → A → Bool) → List A → List A
  pub sort-perm : {A : Type 0} (le : A → A → Bool) (xs : List A) → Permᴰ (sort le xs) xs
  pub sort-IsOrdered :
      {A : Type 0} (le : A → A → Bool) (xs : List A) → IsPreorder le → IsOrdered le (sort le xs)

-- ORDER BY key, ORDER BY key DESC
module _ {A : Type 0} where
  abbrev pub asc : (A → ℕ) → A → A → Bool
  asc key x y = leb (key x) (key y)

  abbrev pub desc : (A → ℕ) → A → A → Bool
  desc key x y = leb (key y) (key x)

  -- ORDER BY first, second
  abbrev pub then_by : (A → A → Bool) → (A → A → Bool) → A → A → Bool
  then_by first second x y = if first x y then (if first y x then second x y else true) else false
