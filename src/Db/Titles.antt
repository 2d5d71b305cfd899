-- ===== src/Db/Titles.antt =====
-- server/src/db/repositories/note-titles-history.ts
pub mod History
pub mod Holder
use bartleby.Prelude.{
  ℕ, String, Bool, true, false, ◌==◌, ◌&&◌, not, Option, none, some, List, map, is_none,
  if◌then◌else◌,
}
use bartleby.Http.{Exec, internal, raise, modify, ◌>>=◌}
use bartleby.Sql.{OrderBy, select, update, insert as add, any, asc, desc, then_by}
use bartleby.Sql.Rows.{keyed}
use bartleby.Db.{Db, NoteTitleHistoryRow}
use bartleby.Db.Notes.{note_id}

abbrev pub is_open : NoteTitleHistoryRow → Bool
is_open r = is_none r.valid_to

abbrev pub is_open_for : String → NoteTitleHistoryRow → Bool
is_open_for id r = r.note_id == id && is_open r

abbrev pub close : ℕ → NoteTitleHistoryRow → NoteTitleHistoryRow
close at r = record r { valid_to = some at }

-- The transaction: it closes the note's open row and adds a new one. The foreign key wants the
-- note to exist; where it does not, the transaction is rolled back.
unfoldable pub append : String → String → ℕ → Exec Db Unit
unfolding ◌>>=◌
append id title valid_from db =
    if not (any (keyed note_id id) db.notes)
    then raise internal db
    else modify
        (λ d. record d {
          note_titles_history =
              add (record { note_id = id; title = title; valid_from = valid_from; valid_to = none })
                (update (is_open_for id) (close valid_from) d.note_titles_history);
        })
        db

pub record TitleResolution : Type 0 where
  pub note_id : String
  pub is_current : Bool

abbrev resolution : NoteTitleHistoryRow → TitleResolution
resolution r = record { note_id = r.note_id; is_current = is_open r }

module _ (order : OrderBy) where
  unfoldable pub list_by_note : String → Db → List NoteTitleHistoryRow
  list_by_note id db =
      order.sort (asc (λ r. r.valid_from)) (select (λ r. r.note_id == id) db.note_titles_history)

  -- ORDER BY valid_to IS NULL DESC, valid_from DESC
  unfoldable pub resolve_title : String → Db → List TitleResolution
  resolve_title title db = map resolution (
      order.sort (then_by (desc (λ r. if is_open r then 1 else 0)) (desc (λ r. r.valid_from)))
        (select (λ r. r.title == title) db.note_titles_history))
