-- ===== src/Snapshots/Latest.antt =====
-- Proofs about the latest snapshot of a note (server/src/snapshots/scheduler.ts): when a note has one
-- that is not older than its last edit.
use mathlib.Core.List.{Permᴰ}
use bartleby.Prelude.{
  ℕ, String, Option, Bool, true, false, ◌≡◌, refl, ◌∙◌, take, ◌&&◌, ◌||◌, some, none, List, [], ◌∷◌,
  leb, arith, All, Bool-cases, inl, inr, ◌==◌,
}
use bartleby.Sql.{OrderBy, IsOrdered, select, any, desc}
use bartleby.Db.{Db, NoteRow, SnapshotRow}
use bartleby.Db.Snapshots.{created, of_note, list_by_note}
use bartleby.Db.Snapshots.Prune.{created-IsPreorder}
use bartleby.Snapshots.{is_unchanged}

-- Some snapshot of the note, of any kind, is not older than the note's last edit.
abbrev pub is_saved : NoteRow → List SnapshotRow → Bool
is_saved note = any (λ s. s.note_id == note.id && leb note.updated_at s.created_at)

or_swap : (a b c : Bool) → (a || (b || c)) ≡ (b || (a || c))
or_swap true true c = refl
or_swap true false c = refl
or_swap false b c = refl

any-perm : {A : Type 0} (q : A → Bool) {xs ys : List A} → Permᴰ xs ys → any q xs ≡ any q ys
any-perm q Permᴰ.nil = refl
any-perm q (Permᴰ.cons e d) = rw (e, any-perm q d) refl
any-perm q (Permᴰ.swap {a} {b} e f) = rw (e, f) (or_swap (q _) (q _) _)
any-perm q (Permᴰ.trans d e) = any-perm q d ∙ any-perm q e

any-select :
    (note : NoteRow) (rows : List SnapshotRow)
    → any (λ s. leb note.updated_at s.created_at) (select (of_note note.id) rows)
      ≡ is_saved note rows
any-select note [] = refl
any-select note (s ∷ rows) = ground (arith, any-select note rows)

none_newer :
    (at : ℕ) (newest : SnapshotRow) (rows : List SnapshotRow)
    → leb at newest.created_at ≡ false
    → All (λ s. leb s.created_at newest.created_at ≡ true) rows
    → any (λ s. leb at s.created_at) rows ≡ false
none_newer at newest [] e h = refl
none_newer at newest (s ∷ rows) e h = ground (arith, none_newer at newest rows e h.1)

head_newest :
    (order : OrderBy) (read : String → Option (List ℕ)) (note : NoteRow) (rows : List SnapshotRow)
    → IsOrdered (desc created) rows
    → is_unchanged order read note (take 1 rows) ≡ any (λ s. leb note.updated_at s.created_at) rows
head_newest order read note [] h = refl
head_newest order read note (s ∷ rows) h = elim (Bool-cases (leb note.updated_at s.created_at)) [
  | inl saved ↦ rw saved refl
  | inr edited ↦ rw (edited, none_newer note.updated_at s rows edited h.0) refl
]

pub is_unchanged-list_by_note :
    (order : OrderBy) (read : String → Option (List ℕ)) (note : NoteRow) (db : Db)
    → is_unchanged order read note (list_by_note order note.id (some 1) none db)
      ≡ is_saved note db.snapshots
unfolding list_by_note
is_unchanged-list_by_note order read note db =
    let rows = select (of_note note.id) db.snapshots in
    head_newest order read note (order.sort (desc created) rows)
      (order.sort-IsOrdered (desc created) rows created-IsPreorder)
    ∙ any-perm (λ s. leb note.updated_at s.created_at) (order.sort-perm (desc created) rows)
    ∙ any-select note db.snapshots
