-- ===== src/Notes/Links.antt =====
-- The two reads of the notes API that follow links (server/src/notes/routes.ts): what note a title
-- stands for, and which notes link to one.
pub mod Unique
use bartleby.Prelude.{
  String, Bool, true, false, not, ◌&&◌, Option, none, some, List, [], ◌∷◌, map, if◌then◌else◌,
}
use bartleby.Text.{is_empty}
use bartleby.Http.{Exec, not_found, validation, pure, raise, gets, require, ◌>>=◌, ◌>>◌}
use bartleby.Sql.{OrderBy}
use bartleby.Auth.Map.{Map, get, set}
use bartleby.Db.{Db, NoteRow, BacklinkRow}
use bartleby.Db.Notes
use bartleby.Db.Notes.{is_live}
use bartleby.Db.Titles
use bartleby.Db.Titles.{TitleResolution}
use bartleby.Db.Backlinks

-- The answers of GET /notes/resolve that are no errors: 200 with an id, 300 with candidates.
pub data Resolved : Type 0 where
  one : String → Resolved
  candidates : List String → Resolved

-- What the loop does with a match: the current row of a note wins over an old one.
keep : TitleResolution → Option TitleResolution → Map TitleResolution → Map TitleResolution
keep m none by_note = set m.note_id m by_note
keep m (some prev) by_note =
    if not prev.is_current && m.is_current then set m.note_id m by_note else by_note

collapse : List TitleResolution → Map TitleResolution → Map TitleResolution
unfolding keep
collapse [] by_note = by_note
collapse (m ∷ ms) by_note = collapse ms (keep m (get m.note_id by_note) by_note)

abbrev pub ids_of : Map TitleResolution → List String
ids_of [] = []
ids_of ((k, m) ∷ entries) = m.note_id ∷ ids_of entries

answer : List String → Exec Db Resolved
answer [] = raise not_found
answer (id ∷ []) = pure (one id)
answer (id ∷ more) = pure (candidates (id ∷ more))

module _ (order : OrderBy) where
  -- GET /notes/resolve
  unfoldable pub resolve_title : Option String → Exec Db Resolved
  unfolding collapse answer
  resolve_title none = raise validation
  resolve_title (some title) = if is_empty title then raise validation else do
    matches ← gets (Titles.resolve_title order title)
    answer (ids_of (collapse matches []))

pub record InboundLink : Type 0 where
  pub source_id : String
  pub source_title : String
  pub link_text : String

abbrev shown : BacklinkRow → NoteRow → InboundLink
shown row source = record {
  source_id = source.id;
  source_title = source.title;
  link_text = row.link_text;
}

-- A source that is gone or trashed is left out.
with_source : BacklinkRow → Option NoteRow → List InboundLink → List InboundLink
with_source row none links = links
with_source row (some source) links = if is_live source then shown row source ∷ links else links

inbound_links : Db → List BacklinkRow → List InboundLink
unfolding with_source
inbound_links db [] = []
inbound_links db (row ∷ rows) =
    with_source row (Notes.find_by_id row.source_note_id db) (inbound_links db rows)

-- GET /notes/:id/backlinks
unfoldable pub list_backlinks : OrderBy → String → Exec Db (List InboundLink)
unfolding inbound_links
list_backlinks order id = do
  found ← gets (Notes.find_by_id id)
  require found not_found
  gets (λ db. inbound_links db (Backlinks.list_inbound order id db))
