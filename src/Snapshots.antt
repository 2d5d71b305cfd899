-- ===== src/Snapshots.antt =====
-- The snapshots API (server/src/snapshots/routes.ts) and the scheduler of auto-snapshots
-- (server/src/snapshots/scheduler.ts). `read` is the Yjs accessor's: the encoded state of a note's
-- document, or none where it throws.
pub mod Restore
pub mod Counts
pub mod Latest
pub mod Tick
pub mod Invariant
use bartleby.Prelude.{
  ℕ, suc, ◌+◌, String, Bool, true, false, ◌==◌, not, ◌&&◌, ◌||◌, Option, none, some, List, [], ◌∷◌,
  map, leb, is_some, if◌then◌else◌,
}
use bartleby.Text.{trim, is_empty}
use bartleby.Json.{Json, str, get_field, as_string, parse_json_body}
use bartleby.Http.{
  Exec, not_found, validation, internal, pure, raise, gets, modify, require, ◌>>=◌, ◌>>◌,
}
use bartleby.Sql.{OrderBy, select}
use bartleby.Db.{Db, NoteRow, SnapshotRow}
use bartleby.Db.Notes
use bartleby.Db.Notes.{is_live}
use bartleby.Db.Snapshots

pub record SnapshotSummary : Type 0 where
  pub id : String
  pub note_id : String
  pub label : Option String
  pub created_at : ℕ

abbrev pub to_list_dto : SnapshotRow → SnapshotSummary
to_list_dto row = record {
  id = row.id;
  note_id = row.note_id;
  label = row.label;
  created_at = row.created_at;
}

-- The guard that each of the routes starts with.
unfoldable pub require_live : String → Exec Db NoteRow
require_live note_id = do
  found ← gets (Notes.find_by_id note_id)
  note ← require found not_found
  if is_live note then pure note else raise not_found

-- `body['label'] ?? ''`
abbrev pub label_or_empty : Option Json → Json
label_or_empty none = str ""
label_or_empty (some Json.null) = str ""
label_or_empty (some v) = v

abbrev pub auto_snapshot : String → String → List ℕ → ℕ → SnapshotRow
auto_snapshot id note_id encoded now = record {
  id = id;
  note_id = note_id;
  yjs_state = encoded;
  created_at = now;
  label = none;
}

module _ (order : OrderBy) (read : String → Option (List ℕ)) where
  -- POST /notes/:id/snapshots
  unfoldable pub create_snapshot : String → Option Json → String → ℕ → Exec Db SnapshotSummary
  unfolding require_live
  create_snapshot note_id request id now = do
    require_live note_id
    body ← parse_json_body request
    raw ← get_field body "label"
    label ← as_string (label_or_empty raw)
    (if is_empty (trim label) then raise validation else pure tt)
    encoded ← require (read note_id) internal
    let row : SnapshotRow = record (auto_snapshot id note_id encoded now) { label = some label }
    Snapshots.insert row
    pure (to_list_dto row)

  -- GET /notes/:id/snapshots, with the numbers that `Number.parseInt` made of the query.
  unfoldable pub list_snapshots : String → Option ℕ → Option ℕ → Exec Db (List SnapshotSummary)
  unfolding require_live
  list_snapshots note_id limit offset = do
    require_live note_id
    gets (λ db. map to_list_dto (Snapshots.list_by_note order note_id limit offset db))

  -- The snapshot `snap_id`, where it is one of the note `note_id`.
  unfoldable pub require_snapshot : String → String → Exec Db SnapshotRow
  require_snapshot note_id snap_id = do
    found ← gets (Snapshots.find_by_id snap_id)
    row ← require found not_found
    if row.note_id == note_id then pure row else raise not_found

  -- GET /notes/:id/snapshots/:snap_id, without the preview.
  unfoldable pub get_snapshot : String → String → Exec Db SnapshotRow
  unfolding require_live require_snapshot
  get_snapshot note_id snap_id = do require_live note_id; require_snapshot note_id snap_id

  -- POST /notes/:id/snapshots/:snap_id/restore. The answer holds what `yjs.replace` is called with.
  unfoldable pub restore_snapshot : ℕ → String → String → String → ℕ → Exec Db (String × List ℕ)
  unfolding require_live require_snapshot
  restore_snapshot retention note_id snap_id id now = do
    require_live note_id
    target ← require_snapshot note_id snap_id
    encoded ← require (read note_id) internal
    Snapshots.insert (auto_snapshot id note_id encoded now)
    modify (λ db. (Snapshots.prune_auto_snapshots order note_id retention db).1)
    pure (note_id, target.yjs_state)

  -- Whether the note was edited since its latest snapshot of any kind.
  abbrev pub is_unchanged : NoteRow → List SnapshotRow → Bool
  is_unchanged note [] = false
  is_unchanged note (latest ∷ rest) = leb note.updated_at latest.created_at

  -- One round of the loop: whether it made a snapshot.
  unfoldable pub tick_note : ℕ → ℕ → (String → String) → NoteRow → Exec Db Bool
  tick_note retention now new_id note = do
    latest ← gets (Snapshots.list_by_note order note.id (some 1) none)
    if is_unchanged note latest then pure false else do
      encoded ← require (read note.id) internal
      Snapshots.insert (auto_snapshot (new_id note.id) note.id encoded now)
      modify (λ db. (Snapshots.prune_auto_snapshots order note.id retention db).1)
      pure true

  abbrev counted : Bool → ℕ × ℕ → ℕ × ℕ
  counted true (created, skipped) = (suc created, skipped)
  counted false (created, skipped) = (created, suc skipped)

  -- `TickResult`, the notes with a fresh snapshot first.
  unfoldable tick_notes : ℕ → ℕ → (String → String) → List NoteRow → Exec Db (ℕ × ℕ)
  unfolding tick_note
  tick_notes retention now new_id [] = pure (0, 0)
  tick_notes retention now new_id (note ∷ notes) = do
    made ← tick_note retention now new_id note
    counts ← tick_notes retention now new_id notes
    pure (counted made counts)

  -- `tickAutoSnapshots`; `new_id` is the id that `randomUUID()` gives for a note.
  unfoldable pub tick_auto_snapshots : ℕ → ℕ → (String → String) → Exec Db (ℕ × ℕ)
  unfolding tick_notes
  tick_auto_snapshots retention now new_id = do
    notes ← gets (λ db. select is_live (Notes.list_all order db))
    tick_notes retention now new_id notes

abbrev default_retention : ℕ
default_retention = 50
