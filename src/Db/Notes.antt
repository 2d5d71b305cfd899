-- ===== src/Db/Notes.antt =====
-- server/src/db/repositories/notes.ts
use bartleby.Prelude.{
  ℕ, String, Bool, ◌||◌, not, Option, none, some, List, ltb, is_none, if◌then◌else◌,
}
use bartleby.Http.{Exec, internal, raise, modify, ◌>>=◌}
use bartleby.Sql.{OrderBy, select, update, find, insert as append, any, asc, desc}
use bartleby.Sql.Rows.{keyed}
use bartleby.Db.{Db, NoteRow, UserRow, ids, delete_notes}

abbrev pub note_id : NoteRow → String
note_id n = n.id

abbrev pub user_id : UserRow → String
user_id u = u.id

-- The primary key must be new, and `created_by` must be a user; SQLite throws otherwise.
unfoldable pub insert : NoteRow → Exec Db Unit
unfolding ◌>>=◌
insert n db =
    if any (keyed note_id n.id) db.notes || not (any (keyed user_id n.created_by) db.users)
    then raise internal db
    else modify (λ d. record d { notes = append n d.notes }) db

unfoldable pub find_by_id : String → Db → Option NoteRow
find_by_id id db = find (keyed note_id id) db.notes

abbrev pub is_live : NoteRow → Bool
is_live n = is_none n.trashed_at

abbrev pub is_trashed : NoteRow → Bool
is_trashed n = not (is_none n.trashed_at)

-- `trashed_at`, as `ORDER BY` reads it in rows where it is not NULL.
abbrev trash_time : NoteRow → ℕ
trash_time n = elim n.trashed_at [ none ↦ 0 | some t ↦ t ]

module _ (order : OrderBy) where
  unfoldable pub list_live : Db → List NoteRow
  list_live db = order.sort (desc (λ n. n.updated_at)) (select is_live db.notes)

  unfoldable pub list_trashed : Db → List NoteRow
  list_trashed db = order.sort (desc trash_time) (select is_trashed db.notes)

  unfoldable pub list_all : Db → List NoteRow
  list_all db = order.sort (asc (λ n. n.created_at)) db.notes

set_note : String → (NoteRow → NoteRow) → Db → Db
set_note id f db = record db { notes = update (keyed note_id id) f db.notes }

unfoldable pub update_title : String → String → ℕ → Db → Db
unfolding set_note
update_title id title at = set_note id (λ n. record n { title = title; updated_at = at })

unfoldable pub update_markdown_export : String → String → ℕ → Db → Db
unfolding set_note
update_markdown_export id markdown at =
    set_note id (λ n. record n { markdown_export = markdown; updated_at = at })

unfoldable pub soft_delete : String → ℕ → Db → Db
unfolding set_note
soft_delete id at = set_note id (λ n. record n { trashed_at = some at })

unfoldable pub restore : String → Db → Db
unfolding set_note
restore id = set_note id (λ n. record n { trashed_at = none })

unfoldable pub hard_delete : String → Db → Db
unfolding delete_notes
hard_delete id = delete_notes (keyed note_id id)

-- WHERE trashed_at IS NOT NULL AND trashed_at < ?
abbrev pub is_stale : ℕ → NoteRow → Bool
is_stale cutoff n = elim n.trashed_at [ none ↦ Bool.false | some t ↦ ltb t cutoff ]

unfoldable pub purge_older_than : ℕ → Db → List String × Db
unfolding delete_notes
purge_older_than cutoff db =
    (ids (select (is_stale cutoff) db.notes), delete_notes (is_stale cutoff) db)
