-- ===== src/Db/Integrity.antt =====
-- What a valid database is (server/src/db): the primary key of `notes`, the foreign
-- keys of its children, and the title history in step with the titles.
mod Cascade
pub mod Tables
pub mod Writes
pub mod Preserves
pub mod Rules
use bartleby.Prelude.{String, Bool, true, ◌≡◌, List, [], ◌∷◌, map, All, contains}
use bartleby.Sql.{select}
use bartleby.Sql.Rows.{Distinct}
use bartleby.Db.{Db, NoteRow, NoteTitleHistoryRow, ids}
use bartleby.Db.Notes.{note_id}
use bartleby.Db.Titles.{is_open_for}

-- The titles of a note's open history rows.
abbrev pub open_titles : String → List NoteTitleHistoryRow → List String
open_titles id rows = map (λ r. r.title) (select (is_open_for id) rows)

-- Each note has one open row in its history, with the note's title.
abbrev pub IsSynced : List NoteRow → List NoteTitleHistoryRow → Type 0
IsSynced notes history = All (λ n. open_titles n.id history ≡ n.title ∷ []) notes

abbrev pub IsPresent : List NoteRow → String → Type 0
IsPresent notes id = contains id (ids notes) ≡ true

pub record IsValid (db : Db) : Type 0 where
  pub distinct : Distinct note_id db.notes
  pub synced : IsSynced db.notes db.note_titles_history
  pub titles : All (λ r. IsPresent db.notes r.note_id) db.note_titles_history
  pub tags : All (λ r. IsPresent db.notes r.note_id) db.tags
  pub sources : All (λ r. IsPresent db.notes r.source_note_id) db.backlinks
  pub targets : All (λ r. IsPresent db.notes r.target_note_id) db.backlinks
  pub comments : All (λ r. IsPresent db.notes r.note_id) db.comments
  pub snapshots : All (λ r. IsPresent db.notes r.note_id) db.snapshots
  pub mentions : All (λ r. IsPresent db.notes r.note_id) db.mentions
