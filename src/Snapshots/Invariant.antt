-- ===== src/Snapshots/Invariant.antt =====
-- Proofs about the snapshots API and the scheduler (server/src/snapshots) and a valid database.
use bartleby.Prelude.{ℕ, String, Option, List, [], ◌∷◌}
use bartleby.Json.{Json}
use bartleby.Json.Keeps.{json_keeps}
use bartleby.Http.{modify}
use bartleby.Http.Keeps.{Keeps, Keeps-pure, Keeps-bind, Keeps-modify}
use bartleby.Sql.{OrderBy}
use bartleby.Db.{Db, NoteRow}
use bartleby.Db.Integrity.{IsValid}
use bartleby.Db.Integrity.Rules.{valid_rules}
use bartleby.Db.Integrity.Preserves.{Snapshots_insert-IsValid, prune_auto_snapshots-IsValid}
use bartleby.Snapshots.{
  require_live, create_snapshot, require_snapshot, restore_snapshot, tick_note, tick_notes,
  tick_auto_snapshots,
}

pub require_live-IsValid : (id : String) → Keeps IsValid (require_live id)
unfolding require_live
require_live-IsValid id = search valid_rules

module _ (order : OrderBy) (read : String → Option (List ℕ)) where
  pruned-IsValid :
      (id : String) (keep : ℕ)
      → Keeps IsValid
          (modify (λ db. (bartleby.Db.Snapshots.prune_auto_snapshots order id keep db).1))
  pruned-IsValid id keep = Keeps-modify IsValid _ (prune_auto_snapshots-IsValid order id keep)

  pub create_snapshot-IsValid :
      (note_id : String) (request : Option Json) (id : String) (now : ℕ)
      → Keeps IsValid (create_snapshot order read note_id request id now)
  unfolding create_snapshot
  create_snapshot-IsValid note_id request id now =
      search (valid_rules, json_keeps, require_live-IsValid, Snapshots_insert-IsValid) depth 25

  require_snapshot-IsValid :
      (note_id snap_id : String) → Keeps IsValid (require_snapshot order read note_id snap_id)
  unfolding require_snapshot
  require_snapshot-IsValid note_id snap_id = search valid_rules

  pub restore_snapshot-IsValid :
      (retention : ℕ) (note_id snap_id id : String) (now : ℕ)
      → Keeps IsValid (restore_snapshot order read retention note_id snap_id id now)
  unfolding restore_snapshot
  restore_snapshot-IsValid retention note_id snap_id id now =
      search
        (
          valid_rules, require_live-IsValid, require_snapshot-IsValid, Snapshots_insert-IsValid,
          pruned-IsValid,
        )
        depth 25

  tick_note-IsValid :
      (retention now : ℕ) (new_id : String → String) (note : NoteRow)
      → Keeps IsValid (tick_note order read retention now new_id note)
  unfolding tick_note
  tick_note-IsValid retention now new_id note =
      search (valid_rules, Snapshots_insert-IsValid, pruned-IsValid) depth 25

  tick_notes-IsValid :
      (retention now : ℕ) (new_id : String → String) (notes : List NoteRow)
      → Keeps IsValid (tick_notes order read retention now new_id notes)
  unfolding tick_notes
  tick_notes-IsValid retention now new_id [] = search valid_rules
  tick_notes-IsValid retention now new_id (note ∷ notes) =
      Keeps-bind IsValid _ _ (tick_note-IsValid retention now new_id note) λ made.
        Keeps-bind IsValid _ _ (tick_notes-IsValid retention now new_id notes)
          λ counts. Keeps-pure IsValid _

  pub tick_auto_snapshots-IsValid :
      (retention now : ℕ) (new_id : String → String)
      → Keeps IsValid (tick_auto_snapshots order read retention now new_id)
  unfolding tick_auto_snapshots
  tick_auto_snapshots-IsValid retention now new_id = search (valid_rules, tick_notes-IsValid)
