-- ===== src/Notes/Invariant.antt =====
-- Proofs about the notes API (server/src/notes/routes.ts) and a valid database.
use bartleby.Prelude.{ℕ, String, Bool, Option, none, some}
use bartleby.Json.{Json}
use bartleby.Json.Keeps.{get_field-Keeps, parse_json_body-Keeps}
use bartleby.Http.{pure}
use bartleby.Http.Keeps.{Keeps, Keeps-pure, Keeps-bind}
use bartleby.Sql.{OrderBy}
use bartleby.Db.{NoteRow, UserRow}
use bartleby.Db.Integrity.{IsValid}
use bartleby.Db.Integrity.Rules.{valid_rules}
use bartleby.Db.Integrity.Preserves.{insert-append-IsValid}
use bartleby.Notes.{
  SessionUser, existing_or_new, ensure_user_exists, title_of, new_note, create_note, rename,
  patch_title, patch_tags, patch_note, delete_note, restore_note,
}

existing_or_new-IsValid :
    (u : SessionUser) (o : Option UserRow) → Keeps IsValid (existing_or_new u o)
unfolding existing_or_new
existing_or_new-IsValid u (some row) = search valid_rules
existing_or_new-IsValid u none = search valid_rules

pub ensure_user_exists-IsValid : (u : SessionUser) → Keeps IsValid (ensure_user_exists u)
unfolding ensure_user_exists
ensure_user_exists-IsValid u = search (valid_rules, existing_or_new-IsValid)

title_of-IsValid : (v : Option Json) → Keeps IsValid (title_of v)
unfolding title_of
title_of-IsValid none = search valid_rules
title_of-IsValid (some v) = search valid_rules

-- POST /notes keeps the database valid, whatever the request, the user and the new id.
pub create_note-IsValid :
    (request : Option Json) (u : SessionUser) (id : String) (now : ℕ)
    → Keeps IsValid (create_note request u id now)
unfolding create_note
create_note-IsValid request u id now =
    Keeps-bind IsValid _ _ (parse_json_body-Keeps IsValid request) λ body.
      Keeps-bind IsValid _ _ (get_field-Keeps IsValid body "title") λ raw.
        Keeps-bind IsValid _ _ (title_of-IsValid raw) λ title.
          Keeps-bind IsValid _ _ (ensure_user_exists-IsValid u) λ user_id.
            insert-append-IsValid (new_note id title user_id now) now (pure (id, title))
              (Keeps-pure IsValid (id, title))

rename-IsValid :
    (id : String) (existing : NoteRow) (now : ℕ) (title : String)
    → Keeps IsValid (rename id existing now title)
unfolding rename
rename-IsValid id existing now title = search valid_rules

patch_title-IsValid :
    (id : String) (existing : NoteRow) (now : ℕ) (v : Option Json)
    → Keeps IsValid (patch_title id existing now v)
unfolding patch_title
patch_title-IsValid id existing now none = search valid_rules
patch_title-IsValid id existing now (some v) = search (valid_rules, rename-IsValid)

patch_tags-IsValid : (id : String) (v : Option Json) → Keeps IsValid (patch_tags id v)
unfolding patch_tags
patch_tags-IsValid id none = search valid_rules
patch_tags-IsValid id (some v) = search valid_rules

pub patch_note-IsValid :
    (order : OrderBy) (id : String) (request : Option Json) (now : ℕ)
    → Keeps IsValid (patch_note order id request now)
unfolding patch_note
patch_note-IsValid order id request now =
    search (valid_rules, patch_title-IsValid, patch_tags-IsValid) depth 25

pub delete_note-IsValid :
    (id : String) (forever : Bool) (now : ℕ) → Keeps IsValid (delete_note id forever now)
unfolding delete_note
delete_note-IsValid id forever now = search valid_rules depth 12

pub restore_note-IsValid : (id : String) → Keeps IsValid (restore_note id)
unfolding restore_note
restore_note-IsValid id = search valid_rules depth 12
