-- ===== src/Db/Snapshots/Prune.antt =====
-- Proofs about `pruneAutoSnapshots` (server/src/db/repositories/snapshots.ts).
use mathlib.Core.List.{Permᴰ}
use mathlib.Core.List.Permᴰ
use Prim.Native.Nat.{min}
use bartleby.Prelude.{
  ℕ, zero, suc, ◌≤◌, String, Bool, true, false, ◌≡◌, ◌≢◌, refl, sym, ◌∙◌, ap, not, List, [], ◌∷◌,
  map, arith, eq_iff, eq_self, All, All-map_of, length, length-take, take, drop, contains,
  Bool-cases, inl, inr,
}
use bartleby.Sql.{OrderBy, IsPreorder, IsOrdered, select, delete, desc}
use bartleby.Sql.Rows.{Distinct-select, All-select, Distinct}
use bartleby.Sql.Permute.{
  length-perm, All-perm, Distinct-perm, contains-perm, delete-perm, select-perm,
}
use bartleby.Db.{Db, SnapshotRow}
use bartleby.Db.Snapshots.{snapshot_id, is_auto_of, created, surplus, prune_auto_snapshots}

abbrev Rows : Type 0
Rows = List SnapshotRow

abbrev is_gone : List String → SnapshotRow → Bool
is_gone gone s = contains s.id gone

-- A list with distinct ids, cut in two: the ids of the back are those of no row of the front.
module _ (key : SnapshotRow → String) where
  absent_key : (k : String) (xs : Rows) → All (λ y. key y ≢ k) xs → contains k (map key xs) ≡ false
  absent_key k [] h = refl
  absent_key k (x ∷ xs) h = ground (arith, eq_iff (key x) k, absent_key k xs h.1)

drop-All : (P : SnapshotRow → Type 0) (n : ℕ) (xs : Rows) → All P xs → All P (drop n xs)
drop-All P zero xs h = h
drop-All P (suc n) [] h = tt
drop-All P (suc n) (x ∷ xs) h = drop-All P n xs h.1

take-All : (P : SnapshotRow → Type 0) (n : ℕ) (xs : Rows) → All P xs → All P (take n xs)
take-All P zero xs h = tt
take-All P (suc n) [] h = tt
take-All P (suc n) (x ∷ xs) h = (h.0, take-All P n xs h.1)

grow :
    (k : String) (gone : List String) (xs : Rows)
    → All (λ y. contains y.id gone ≡ true) xs
    → All (λ y. contains y.id (k ∷ gone) ≡ true) xs
grow k gone [] h = tt
grow k gone (x ∷ xs) h = (ground arith, grow k gone xs h.1)

members : (xs : Rows) → All (λ y. contains y.id (map snapshot_id xs) ≡ true) xs
members [] = tt
members (x ∷ xs) = (rw (eq_self x.id), grow x.id (map snapshot_id xs) xs (members xs))

all_gone :
    (gone : List String) (xs : Rows)
    → All (λ y. contains y.id gone ≡ true) xs
    → (delete (is_gone gone) xs ≡ []) × (select (is_gone gone) xs ≡ xs)
all_gone gone [] h = (refl, refl)
all_gone gone (x ∷ xs) h =
    (rw h.0 (all_gone gone xs h.1).0, rw h.0 (ap (◌∷◌ x) (all_gone gone xs h.1).1))

-- Deleting by the ids of the back leaves the front.
delete_back :
    (n : ℕ) (xs : Rows)
    → Distinct snapshot_id xs
    → delete (is_gone (map snapshot_id (drop n xs))) xs ≡ take n xs
delete_back zero xs d = (all_gone _ xs (members xs)).0
delete_back (suc n) [] d = refl
delete_back (suc n) (x ∷ xs) d =
    rw (absent_key snapshot_id x.id (drop n xs) (drop-All _ n xs d.0))
      (ap (◌∷◌ x) (delete_back n xs d.1))

front_is_newer :
    (n : ℕ) (xs : Rows)
    → IsOrdered (desc created) xs
    → All (λ t. All (λ s. s.created_at ≤ t.created_at) (drop n xs)) (take n xs)
front_is_newer zero xs h = tt
front_is_newer (suc n) [] h = tt
front_is_newer (suc n) (x ∷ xs) h =
    (drop-All _ n xs (All-map_of _ _ (λ y e. ground arith) xs h.0), front_is_newer n xs h.1)

pub created-IsPreorder : IsPreorder (desc created)
created-IsPreorder = record { total = λ x y e. ground arith; trans = λ x y z e f. ground arith }

select_back :
    (n : ℕ) (xs : Rows)
    → Distinct snapshot_id xs
    → select (is_gone (map snapshot_id (drop n xs))) xs ≡ drop n xs
select_back zero xs d = (all_gone _ xs (members xs)).1
select_back (suc n) [] d = refl
select_back (suc n) (x ∷ xs) d =
    rw (absent_key snapshot_id x.id (drop n xs) (drop-All _ n xs d.0)) (select_back n xs d.1)

select-delete_comm :
    (p q : SnapshotRow → Bool) (xs : Rows) → select p (delete q xs) ≡ delete q (select p xs)
select-delete_comm p q [] = refl
select-delete_comm p q (x ∷ xs) = ground (arith, select-delete_comm p q xs)

-- The ids of the selected rows are those of no other row.
unselected :
    (p : SnapshotRow → Bool) (xs : Rows)
    → Distinct snapshot_id xs
    → All (λ s. p s ≡ false → contains s.id (map snapshot_id (select p xs)) ≡ false) xs
unselected p [] d = tt
unselected p (x ∷ xs) d = elim (Bool-cases (p x)) [
  | inl hit ↦ ((λ e. cc), selected_head hit xs d.0 (unselected p xs d.1))
  | inr miss ↦ (
    (λ e. rw miss (absent_key snapshot_id x.id (select p xs) (All-select _ p xs d.0))),
    All-map_of _ _ (λ s h e. rw miss (h e)) xs (unselected p xs d.1),
  )
]
  where
    selected_head :
        p x ≡ true
        → (ys : Rows) → All (λ y. y.id ≢ x.id) ys
        → All (λ s. p s ≡ false → contains s.id (map snapshot_id (select p xs)) ≡ false) ys
        → All (λ s. p s ≡ false → contains s.id (map snapshot_id (select p (x ∷ xs))) ≡ false) ys
    selected_head hit [] h k = tt
    selected_head hit (y ∷ ys) h k =
        ((λ e. rw hit (ground (arith, eq_iff x.id y.id, h.0, k.0 e))), selected_head hit ys h.1 k.1)

others_stay :
    (p : SnapshotRow → Bool) (gone : List String) (xs : Rows)
    → All (λ s. p s ≡ false → contains s.id gone ≡ false) xs
    → select (λ s. not (p s)) (delete (is_gone gone) xs) ≡ select (λ s. not (p s)) xs
others_stay p gone [] h = refl
others_stay p gone (x ∷ xs) h = ground (arith, h.0, others_stay p gone xs h.1)

contains-drop :
    (k : String) (n : ℕ) (xs : Rows)
    → contains k (map snapshot_id xs) ≡ false
    → contains k (map snapshot_id (drop n xs)) ≡ false
contains-drop k zero xs h = h
contains-drop k (suc n) [] h = h
contains-drop k (suc n) (x ∷ xs) h = contains-drop k n xs (ground arith)

-- What retention leaves of a table when the rows with the ids `gone` are deleted: every row but the
-- note's auto-snapshots; of those, `keep` or all that there were; and none of those that are left
-- is older than one that is deleted.
pub record IsPruned (id : String) (keep : ℕ) (gone : List String) (rows rows' : Rows) : Type 0 where
  pub others : select (λ s. not (is_auto_of id s)) rows' ≡ select (λ s. not (is_auto_of id s)) rows
  pub count :
      length (select (is_auto_of id) rows') ≡ min keep (length (select (is_auto_of id) rows))
  pub newest :
      All
        (λ t.
          All
            (λ s. s.created_at ≤ t.created_at)
            (select (is_gone gone) (select (is_auto_of id) rows)))
        (select (is_auto_of id) rows')

module _ (order : OrderBy) (id : String) (keep : ℕ) (rows : Rows)
    (d : Distinct snapshot_id rows) where
  autos : Rows
  autos = select (is_auto_of id) rows

  sorted : Rows
  sorted = order.sort (desc created) autos

  sorted-perm : Permᴰ sorted autos
  unfolding sorted
  sorted-perm = order.sort-perm (desc created) autos

  gone : List String
  gone = map snapshot_id (drop keep sorted)

  sorted-Distinct : Distinct snapshot_id sorted
  unfolding autos
  sorted-Distinct =
      Distinct-perm snapshot_id (Permᴰ.symm sorted-perm) (Distinct-select snapshot_id _ rows d)

  kept-perm : Permᴰ (take keep sorted) (select (is_auto_of id) (delete (is_gone gone) rows))
  unfolding gone autos
  kept-perm =
      rw (select-delete_comm (is_auto_of id) (is_gone gone) rows)
        (rw (delete_back keep sorted sorted-Distinct) at (delete-perm (is_gone gone) sorted-perm))

  gone-perm : Permᴰ (drop keep sorted) (select (is_gone gone) autos)
  unfolding gone
  gone-perm =
      rw (select_back keep sorted sorted-Distinct) at (select-perm (is_gone gone) sorted-perm)

  pruned : IsPruned id keep gone rows (delete (is_gone gone) rows)
  unfolding autos gone
  pruned = record {
    others = others_stay (is_auto_of id) gone rows (
        All-map_of _ _
          (λ s h e.
            contains-drop s.id keep sorted (contains-perm snapshot_id s.id sorted-perm ∙ h e))
          rows (unselected (is_auto_of id) rows d));
    count =
        sym (length-perm kept-perm)
        ∙ length-take keep sorted
        ∙ ap (min keep) (length-perm sorted-perm);
    newest = All-perm _ kept-perm (
        All-map_of _ _ (λ t h. All-perm _ gone-perm h) (take keep sorted)
          (front_is_newer keep sorted
            (unfold sorted in order.sort-IsOrdered (desc created) autos created-IsPreorder)));
  }

-- Where snapshot ids are distinct, pruning keeps the snapshots of other notes and the named ones,
-- in order; of the note's auto-snapshots min(keep, their number) are left; and none of those left
-- is older than one that was deleted.
pub prune_auto_snapshots-IsPruned :
    (order : OrderBy) (id : String) (keep : ℕ) (db : Db)
    → Distinct snapshot_id db.snapshots
    → IsPruned id keep
        (surplus order id keep db.snapshots)
        db.snapshots
        (prune_auto_snapshots order id keep db).1.snapshots
unfolding prune_auto_snapshots autos sorted gone
prune_auto_snapshots-IsPruned order id keep db d = pruned order id keep db.snapshots d
