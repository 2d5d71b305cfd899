-- ===== src/Snapshots/Counts.antt =====
-- Proofs about an auto-snapshot tick (server/src/snapshots/scheduler.ts): what it reports, and what it
-- has made.
use mathlib.Core.List.Permᴰ
use bartleby.Prelude.{ℕ, String, Bool, true, false, not, ◌≡◌, ◌==◌, ◌||◌, Option, List, length, All}
use bartleby.Sql.{OrderBy, select, any}
use bartleby.Db.{Db, NoteRow, SnapshotRow}
use bartleby.Db.Notes
use bartleby.Db.Notes.{note_id, is_live}
use bartleby.Snapshots.Latest.{is_saved}
use bartleby.Snapshots.Tick.{has_fresh}

abbrev pub number : (NoteRow → Bool) → List NoteRow → ℕ
number p notes = length (select p notes)

-- What the rest of the loop does, for the notes that are left.
record IsRest (read : String → Option (List ℕ)) (now : ℕ) (notes : List NoteRow)
    (created skipped : ℕ) (db db' : Db) : Type 0 where
  made : created ≡ number (λ n. not (is_saved n db.snapshots)) notes
  left : skipped ≡ number (λ n. is_saved n db.snapshots) notes
  fresh : All (λ n. (is_saved n db.snapshots || has_fresh read now n db'.snapshots) ≡ true) notes
  others :
      (q : SnapshotRow → Bool)
      → ((s : SnapshotRow) → q s ≡ true → All (λ n. (s.note_id == n.id) ≡ false) notes)
      → any q db'.snapshots ≡ any q db.snapshots

-- What a tick has done.
pub record IsTicked (order : OrderBy) (read : String → Option (List ℕ)) (now created skipped : ℕ)
    (db db' : Db) : Type 0 where
  pub made :
      created
      ≡ number (λ n. not (is_saved n db.snapshots)) (select is_live (Notes.list_all order db))
  pub left :
      skipped ≡ number (λ n. is_saved n db.snapshots) (select is_live (Notes.list_all order db))
  pub fresh :
      All
        (λ n. (is_saved n db.snapshots || has_fresh read now n db'.snapshots) ≡ true)
        (select is_live (Notes.list_all order db))
