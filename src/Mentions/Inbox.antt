-- ===== src/Mentions/Inbox.antt =====
-- The mentions inbox (server/src/mentions/routes.ts).
pub mod Scope
pub mod Invariant
use bartleby.Prelude.{ℕ, String, Bool, ◌==◌, Option, none, some, List, map, if◌then◌else◌}
use bartleby.Http.{Exec, not_found, forbidden, pure, raise, gets, modify, require, ◌>>=◌, ◌>>◌}
use bartleby.Sql.{OrderBy}
use bartleby.Db.{Db, NoteRow, MentionRow}
use bartleby.Db.Notes
use bartleby.Db.Mentions

pub record MentionDto : Type 0 where
  pub row : MentionRow
  pub note_title : String

title_or_deleted : Option NoteRow → String
title_or_deleted none = "(deleted note)"
title_or_deleted (some n) = n.title

unfoldable pub with_note_title : Db → MentionRow → MentionDto
unfolding title_or_deleted
with_note_title db row = record {
  row = row;
  note_title = title_or_deleted (Notes.find_by_id row.note_id db);
}

-- GET /mentions, for the session's user.
unfoldable pub list_mentions : OrderBy → String → Bool → Db → List MentionDto
unfolding with_note_title
list_mentions order user_id unread db =
    map (with_note_title db) (Mentions.list_for_user order user_id unread db)

answer : Option MentionRow → Exec Db MentionDto
answer updated = do row ← require updated not_found; gets (λ db. with_note_title db row)

-- POST /mentions/:id/read
unfoldable pub read_mention : String → String → ℕ → Exec Db MentionDto
unfolding answer
read_mention id user_id now = do
  found ← gets (Mentions.find_by_id id)
  row ← require found not_found
  (if row.mentioned_user_id == user_id then pure tt else raise forbidden)
  modify (Mentions.mark_read id now)
  updated ← gets (Mentions.find_by_id id)
  answer updated
