-- ===== src/Db/Backlinks.antt =====
-- server/src/db/repositories/backlinks.ts
pub mod Integrity
use bartleby.Prelude.{
  ℕ, suc, map, String, Bool, true, false, ◌==◌, ◌&&◌, ◌||◌, not, List, [], ◌∷◌, ◌++◌, if◌then◌else◌,
}
use bartleby.Http.{Exec, internal, raise, modify, ◌>>=◌}
use bartleby.Sql.{OrderBy, select, delete, any, asc, then_by}
use bartleby.Sql.Rows.{keyed}
use bartleby.Db.{Db, NoteRow, BacklinkRow}
use bartleby.Db.Notes.{note_id}
use bartleby.Db.Tags.{text_le}

pub record BacklinkInput : Type 0 where
  pub target_note_id : String
  pub link_text : String

abbrev pub link_rows : String → List BacklinkInput → List BacklinkRow
link_rows source [] = []
link_rows source (l ∷ ls) =
    record { source_note_id = source; target_note_id = l.target_note_id; link_text = l.link_text }
    ∷ link_rows source ls

abbrev pub is_from : String → BacklinkRow → Bool
is_from source r = r.source_note_id == source

abbrev pub is_to : String → BacklinkRow → Bool
is_to target r = r.target_note_id == target

abbrev pub is_note : List NoteRow → String → Bool
is_note notes id = any (keyed note_id id) notes

-- Whether an INSERT breaks one of the two foreign keys.
abbrev pub dangles : List NoteRow → String → List BacklinkInput → Bool
dangles notes source [] = false
dangles notes source (l ∷ ls) =
    not (is_note notes source && is_note notes l.target_note_id) || dangles notes source ls

-- The transaction: it is rolled back when an INSERT fails.
unfoldable pub replace_for_source : String → List BacklinkInput → Exec Db Unit
unfolding ◌>>=◌
replace_for_source source links db =
    if dangles db.notes source links
    then raise internal db
    else modify
        (λ d. record d {
          backlinks = delete (is_from source) d.backlinks ++ link_rows source links;
        })
        db

-- A row with its `id`: the column counts upwards, so the row's place has the same order.
pub record Numbered : Type 0 where
  pub id : ℕ
  pub row : BacklinkRow

abbrev pub number_from : ℕ → List BacklinkRow → List Numbered
number_from n [] = []
number_from n (r ∷ rs) = record { id = n; row = r } ∷ number_from (suc n) rs

module _ (order : OrderBy) where
  -- ORDER BY source_note_id, id
  unfoldable pub list_inbound : String → Db → List BacklinkRow
  list_inbound target db =
      map (λ n. n.row)
        (order.sort
          (then_by (λ m n. text_le m.row.source_note_id n.row.source_note_id) (asc (λ n. n.id)))
          (select (λ n. is_to target n.row) (number_from 1 db.backlinks)))

  -- ORDER BY target_note_id, id
  unfoldable pub list_outbound : String → Db → List BacklinkRow
  list_outbound source db =
      map (λ n. n.row)
        (order.sort
          (then_by (λ m n. text_le m.row.target_note_id n.row.target_note_id) (asc (λ n. n.id)))
          (select (λ n. is_from source n.row) (number_from 1 db.backlinks)))
