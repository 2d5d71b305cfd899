-- ===== src/Db/Snapshots.antt =====
-- server/src/db/repositories/snapshots.ts
pub mod Prune
use bartleby.Prelude.{
  ℕ, String, Bool, ◌==◌, ◌&&◌, ◌||◌, not, Option, none, some, List, map, is_none, take, drop,
  length, contains, if◌then◌else◌, or_else,
}
use bartleby.Http.{Exec, internal, raise, modify, ◌>>=◌}
use bartleby.Sql.{OrderBy, select, delete, find, insert as append, any, desc}
use bartleby.Sql.Rows.{keyed}
use bartleby.Db.{Db, SnapshotRow}
use bartleby.Db.Notes.{note_id}

abbrev pub snapshot_id : SnapshotRow → String
snapshot_id s = s.id

unfoldable pub insert : SnapshotRow → Exec Db Unit
unfolding ◌>>=◌
insert s db =
    if any (keyed snapshot_id s.id) db.snapshots || not (any (keyed note_id s.note_id) db.notes)
    then raise internal db
    else modify (λ d. record d { snapshots = append s d.snapshots }) db

unfoldable pub find_by_id : String → Db → Option SnapshotRow
find_by_id id db = find (keyed snapshot_id id) db.snapshots

abbrev pub of_note : String → SnapshotRow → Bool
of_note id s = s.note_id == id

-- An auto-snapshot has no label.
abbrev pub is_auto_of : String → SnapshotRow → Bool
is_auto_of id s = s.note_id == id && is_none s.label

abbrev pub created : SnapshotRow → ℕ
created s = s.created_at

-- LIMIT ? OFFSET ?, where a missing limit is -1: no limit.
abbrev limit_to : Option ℕ → List SnapshotRow → List SnapshotRow
limit_to none rows = rows
limit_to (some n) rows = take n rows

module _ (order : OrderBy) where
  unfoldable pub list_by_note : String → Option ℕ → Option ℕ → Db → List SnapshotRow
  list_by_note id limit offset db =
      limit_to limit
        (drop (or_else offset 0) (order.sort (desc created) (select (of_note id) db.snapshots)))

  -- The ids of the auto-snapshots beyond the `keep` newest.
  unfoldable pub surplus : String → ℕ → List SnapshotRow → List String
  surplus id keep rows =
      map snapshot_id (drop keep (order.sort (desc created) (select (is_auto_of id) rows)))

  -- The number of deleted rows, and the table without them.
  unfoldable pub prune_auto_snapshots : String → ℕ → Db → ℕ × Db
  unfolding surplus
  prune_auto_snapshots id keep db =
      let gone = surplus id keep db.snapshots in
      (
        length (select (λ s. contains s.id gone) db.snapshots),
        record db { snapshots = delete (λ s. contains s.id gone) db.snapshots },
      )
