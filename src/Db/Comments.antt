-- ===== src/Db/Comments.antt =====
-- server/src/db/repositories/comments.ts
pub mod Thread
pub mod Integrity
use bartleby.Prelude.{
  ℕ, String, Bool, true, false, ◌==◌, ◌&&◌, ◌||◌, not, Option, none, some, List, [], ◌∷◌, is_none,
  contains, if◌then◌else◌,
}
use bartleby.Http.{Exec, internal, raise, modify, ◌>>=◌}
use bartleby.Sql.{OrderBy, select, update, find, insert as append, any, asc, then_by}
use bartleby.Sql.Rows.{keyed}
use bartleby.Db.{Db, CommentRow}
use bartleby.Db.Notes.{note_id, user_id}
use bartleby.Db.Tags.{text_le}

abbrev pub comment_id : CommentRow → String
comment_id c = c.id

-- Whether a parent is named that is one of `ids`, or that is none of them.
abbrev pub has_parent : Option String → List String → Bool
has_parent none ids = false
has_parent (some p) ids = contains p ids

abbrev pub lacks_parent : Option String → List String → Bool
lacks_parent none ids = false
lacks_parent (some p) ids = not (contains p ids)

abbrev pub comment_ids : List CommentRow → List String
comment_ids [] = []
comment_ids (c ∷ cs) = c.id ∷ comment_ids cs

-- The primary key, and three foreign keys; a comment could be its own parent.
abbrev pub refused : CommentRow → Db → Bool
refused c db =
    any (keyed comment_id c.id) db.comments
    || not (any (keyed note_id c.note_id) db.notes)
    || not (any (keyed user_id c.author_id) db.users)
    || lacks_parent c.parent_comment_id (c.id ∷ comment_ids db.comments)

-- The row is read again and returned.
unfoldable pub insert : CommentRow → Exec Db Unit
unfolding ◌>>=◌
insert c db =
    if refused c db
    then raise internal db
    else modify (λ d. record d { comments = append c d.comments }) db

unfoldable pub find_by_id : String → Db → Option CommentRow
find_by_id id db = find (keyed comment_id id) db.comments

abbrev by_id : CommentRow → CommentRow → Bool
by_id c d = text_le c.id d.id

abbrev pub is_listed : String → Bool → CommentRow → Bool
is_listed note include_resolved c = c.note_id == note && (include_resolved || is_none c.resolved_at)

-- ORDER BY created_at, id
unfoldable pub list_by_note : OrderBy → String → Bool → Db → List CommentRow
list_by_note order note include_resolved db =
    order.sort (then_by (asc (λ c. c.created_at)) by_id)
      (select (is_listed note include_resolved) db.comments)

abbrev pub change : (CommentRow → CommentRow) → String → Db → Db
change f id db = record db { comments = update (keyed comment_id id) f db.comments }

unfoldable pub resolve : String → ℕ → Db → Db
resolve id at = change (λ c. record c { resolved_at = some at }) id

unfoldable pub reopen : String → Db → Db
reopen = change λ c. record c { resolved_at = none }

unfoldable pub set_orphaned : String → Bool → Db → Db
set_orphaned id orphaned = change (λ c. record c { is_orphaned = orphaned }) id

-- The rows that are left when the comments `gone` are deleted and every reply of a deleted comment
-- goes with it (ON DELETE CASCADE). A parent stands before its replies in the table, so one pass
-- finds them all.
abbrev pub without_thread : List String → List CommentRow → List CommentRow
without_thread gone [] = []
without_thread gone (c ∷ cs) =
    if contains c.id gone || has_parent c.parent_comment_id gone
    then without_thread (c.id ∷ gone) cs
    else c ∷ without_thread gone cs

unfoldable pub delete : String → Db → Db
delete id db = record db { comments = without_thread (id ∷ []) db.comments }
