-- ===== src/Notes.antt =====
-- The notes API (server/src/notes/routes.ts, ensure-user.ts). Each handler is an action on the
-- database; what `randomUUID()` and the clock return are arguments.
pub mod Purge
pub mod Invariant
pub mod Lifecycle
pub mod Links
use bartleby.Prelude.{
  ℕ, String, Bool, true, false, ◌==◌, not, Option, none, some, List, [], ◌∷◌, map, ltb, leb,
  is_some, if◌then◌else◌, contains,
}
use bartleby.Text.{trim, is_empty}
use bartleby.Json.{Json, str, get_field, as_string, as_string_array, parse_json_body}
use bartleby.Http.{
  Exec, Error, not_found, validation, pure, raise, gets, modify, require, ◌>>=◌, ◌>>◌,
}
use bartleby.Sql.{OrderBy, select, desc}
use bartleby.Sql.Sort.{insertion_sort}
use bartleby.Db.{Db, NoteRow, UserRow}
use bartleby.Db.Users
use bartleby.Db.Notes
use bartleby.Db.Notes.{is_live}
use bartleby.Db.Titles
use bartleby.Db.Titles.{TitleResolution}
use bartleby.Db.Tags

-- The session's user (server/src/auth/store.ts), with its email as stored, trimmed and in lower
-- case.
pub record SessionUser : Type 0 where
  pub id : String
  pub email : String
  pub display_name : String
  pub color : String
  pub created_at : ℕ

pub record NoteSummary : Type 0 where
  pub id : String
  pub title : String
  pub tags : List String
  pub updated_at : ℕ
  pub created_at : ℕ

abbrev to_summary : NoteRow → List String → NoteSummary
to_summary row tags = record {
  id = row.id;
  title = row.title;
  tags = tags;
  updated_at = row.updated_at;
  created_at = row.created_at;
}

abbrev pub user_row : SessionUser → UserRow
user_row u = record {
  id = u.id;
  email = u.email;
  display_name = u.display_name;
  color = u.color;
  created_at = u.created_at;
}

existing_or_new : SessionUser → Option UserRow → Exec Db String
existing_or_new u (some existing) = pure existing.id
existing_or_new u none = do Users.insert (user_row u); pure u.id

unfoldable pub ensure_user_exists : SessionUser → Exec Db String
unfolding existing_or_new
ensure_user_exists u = do existing ← gets (Users.find_by_email u.email); existing_or_new u existing

-- The title that POST /notes gives.
title_of : Option Json → Exec Db String
title_of none = pure "Untitled"
title_of (some v) = do
  title ← as_string v
  pure (if is_empty (trim title) then "Untitled" else title)

abbrev pub new_note : String → String → String → ℕ → NoteRow
new_note id title user_id now = record {
  id = id;
  title = title;
  created_by = user_id;
  created_at = now;
  updated_at = now;
  trashed_at = none;
  markdown_export = "";
}

-- POST /notes
unfoldable pub create_note : Option Json → SessionUser → String → ℕ → Exec Db (String × String)
unfolding title_of
create_note request user id now = do
  body ← parse_json_body request
  raw_title ← get_field body "title"
  title ← title_of raw_title
  user_id ← ensure_user_exists user
  Notes.insert (new_note id title user_id now)
  Titles.append id title now
  pure (id, title)

-- The row as PATCH /notes/:id leaves it, and its history. Where the title is the same, nothing is
-- written.
rename : String → NoteRow → ℕ → String → Exec Db Unit
rename id existing now title =
    if title == existing.title
    then pure tt
    else do modify (Notes.update_title id title now); Titles.append id title now

patch_title : String → NoteRow → ℕ → Option Json → Exec Db Unit
unfolding rename
patch_title id existing now none = pure tt
patch_title id existing now (some v) = do title ← as_string v; rename id existing now title

patch_tags : String → Option Json → Exec Db Unit
patch_tags id none = pure tt
patch_tags id (some v) = do tags ← as_string_array v; Tags.replace_for_note id tags

module _ (order : OrderBy) where
  -- `toSummary(row, repos.tags.listForNote(row.id))`
  unfoldable pub summary : Db → NoteRow → NoteSummary
  summary db row = record {
    id = row.id;
    title = row.title;
    tags = Tags.list_for_note order row.id db;
    updated_at = row.updated_at;
    created_at = row.created_at;
  }

  -- GET /notes/:id
  unfoldable pub get_note : String → Exec Db NoteSummary
  get_note id = do
    found ← gets (Notes.find_by_id id)
    row ← require found not_found
    if is_live row then gets (λ db. summary db row) else raise not_found

  -- PATCH /notes/:id. Where nothing changed, the row read again is `existing` itself.
  unfoldable pub patch_note : String → Option Json → ℕ → Exec Db NoteSummary
  unfolding patch_title patch_tags
  patch_note id request now = do
    found ← gets (Notes.find_by_id id)
    existing ← require found not_found
    body ← parse_json_body request
    title ← get_field body "title"
    patch_title id existing now title
    tags ← get_field body "tags"
    patch_tags id tags
    refreshed ← gets (Notes.find_by_id id)
    row ← require refreshed not_found
    gets (λ db. summary db row)

  -- GET /notes/trash
  unfoldable pub list_trash : Db → List NoteSummary
  list_trash db = map (summary db) (Notes.list_trashed order db)

  -- GET /notes, with `?tag=` or without; the rows are sorted again, newest first.
  unfoldable pub list_notes : Option String → Db → List NoteSummary
  list_notes tag db = map (summary db) (insertion_sort (desc (λ n. n.updated_at)) (rows tag))
    where
      rows : Option String → List NoteRow
      rows none = Notes.list_live order db
      rows (some t) =
          if is_empty t
          then Notes.list_live order db
          else select (λ n. contains n.id (Tags.list_notes_by_tag order t db))
              (Notes.list_live order db)

-- DELETE /notes/:id, with `?forever=true` or without.
unfoldable pub delete_note : String → Bool → ℕ → Exec Db Unit
delete_note id forever now = do
  found ← gets (Notes.find_by_id id)
  existing ← require found not_found
  if forever
      then (if is_live existing then raise validation else modify (Notes.hard_delete id))
      else modify (Notes.soft_delete id now)

-- POST /notes/:id/restore
unfoldable pub restore_note : String → Exec Db Unit
restore_note id = do
  found ← gets (Notes.find_by_id id)
  require found not_found
  modify (Notes.restore id)
