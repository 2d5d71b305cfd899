-- ===== src/Export.antt =====
-- The export of notes (server/src/export/routes.ts). `toLowerCase` is a parameter; the package fflate
-- packs what `all_entries` gives.
pub mod Serializer
use Prim.Native.String
use bartleby.Prelude.{String, Option, none, some, List, [], ◌∷◌}
use bartleby.Http.{Exec, not_found, raise, gets, require, ◌>>=◌}
use bartleby.Sql.{OrderBy, find}
use bartleby.Sql.Rows.{keyed}
use bartleby.Auth.Map.{Map, set}
use bartleby.Db.{Db, NoteRow}
use bartleby.Db.Notes
use bartleby.Db.Notes.{is_live, note_id}
use bartleby.Db.Tags
use bartleby.Export.Serializer.{Assignment, build_export_markdown, slugify, assign_zip_filenames}
use bartleby.Prelude.{if◌then◌else◌}

-- The file's name in the header, and the body.
pub record Download : Type 0 where
  pub filename : String
  pub body : String

module _ (to_lower_case : String → String) (order : OrderBy) where
  -- GET /notes/:id/export.md
  unfoldable pub export_note : String → Exec Db Download
  unfolding slugify build_export_markdown
  export_note id = do
    found ← gets (Notes.find_by_id id)
    row ← require found not_found
    if is_live row
        then gets (λ db. record {
          filename = String.◌++◌ (slugify to_lower_case row.title) ".md";
          body = build_export_markdown row (Tags.list_for_note order id db);
        })
        else raise not_found

  add_entry : Db → Assignment → Option NoteRow → Map String → Map String
  unfolding build_export_markdown
  add_entry db a none entries = entries
  add_entry db a (some row) entries =
      set a.filename (build_export_markdown row (Tags.list_for_note order a.id db)) entries

  add_entries : Db → List NoteRow → List Assignment → Map String → Map String
  unfolding add_entry
  add_entries db notes [] entries = entries
  add_entries db notes (a ∷ assignments) entries =
      add_entries db notes assignments (add_entry db a (find (keyed note_id a.id) notes) entries)

  -- GET /export/all.zip: the entries of the archive. Without notes there are none.
  unfoldable pub all_entries : Db → Map String
  unfolding add_entries assign_zip_filenames
  all_entries db =
      let notes = Notes.list_live order db in
      add_entries db notes (assign_zip_filenames to_lower_case notes) []
