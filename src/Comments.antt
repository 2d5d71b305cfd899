-- ===== src/Comments.antt =====
-- The comments API (server/src/comments/routes.ts). Parameters: `resolve_anchor`, the text that the
-- note's document has at an anchor, where the Yjs accessor is wired and the anchor resolves;
-- `extract_mention_emails`, the e-mails that a text mentions, without repeats; and for each of these
-- the id that `randomUUID()` gives.
pub mod Invariant
pub mod Replies
pub mod Anchor
use Prim.Native.String
use bartleby.Prelude.{
  ℕ, String, Bool, true, false, ◌==◌, Option, none, some, List, [], ◌∷◌, or_else, if◌then◌else◌,
}
use bartleby.Text.{trim, is_empty}
use bartleby.Json.{Json, str, null, get_field, as_string, parse_json_body}
use bartleby.Http.{Exec, not_found, validation, pure, raise, gets, modify, require, ◌>>=◌, ◌>>◌}
use bartleby.Sql.{OrderBy}
use bartleby.Db.{Db, NoteRow, UserRow, CommentRow}
use bartleby.Db.Users
use bartleby.Db.Mentions
use bartleby.Db.Comments
use bartleby.Snapshots.{require_live, label_or_empty}

-- `asString(body[field] ?? '', field)`
text_field : Json → String → Exec Db String
text_field body field = do raw ← get_field body field; as_string (label_or_empty raw)

-- `asRequiredBody(body['body'])`, where `undefined` is no string.
required : Option Json → Exec Db String
required none = raise validation
required (some v) = do s ← as_string v; if is_empty (trim s) then raise validation else pure s

-- The comment with that id, or the 404.
unfoldable require_comment : String → Exec Db CommentRow
require_comment id = do found ← gets (Comments.find_by_id id); require found not_found

module _ (extract_mention_emails : String → List String) (mention_uuid : String → String) where
  -- One round of the loop of `extractCommentMentions`.
  mention : CommentRow → String → Option UserRow → Exec Db Unit
  mention comment email none = pure tt
  mention comment email (some user) =
      if user.id == comment.author_id
      then pure tt
      else Mentions.insert (record {
        id = mention_uuid email;
        note_id = comment.note_id;
        mentioned_user_id = user.id;
        mentioning_user_id = comment.author_id;
        source = String.◌++◌ "comment:" comment.id;
        created_at = comment.created_at;
      })

  mention_each : CommentRow → List String → Exec Db Unit
  unfolding mention
  mention_each comment [] = pure tt
  mention_each comment (email ∷ emails) = do
    user ← gets (Users.find_by_email email)
    mention comment email user
    mention_each comment emails

  unfoldable pub extract_comment_mentions : CommentRow → Exec Db Unit
  unfolding mention_each
  extract_comment_mentions comment = mention_each comment (extract_mention_emails comment.body)

  -- POST /notes/:id/comments
  unfoldable pub create_comment :
      (String → String → Option String)
      → String
      → Option Json
      → String
      → String
      → ℕ
      → Exec Db CommentRow
  unfolding extract_comment_mentions text_field required
  create_comment resolve_anchor note_id request user_id id now = do
    require_live note_id
    body ← parse_json_body request
    anchor ← text_field body "anchor"
    client_quote ← text_field body "original_quote"
    raw ← get_field body "body"
    text ← required raw
    let row : CommentRow = record {
      id = id;
      note_id = note_id;
      author_id = user_id;
      parent_comment_id = none;
      anchor = anchor;
      original_quote =
          if is_empty anchor
          then client_quote
          else or_else (resolve_anchor note_id anchor) client_quote;
      body = text;
      created_at = now;
      resolved_at = none;
      is_orphaned = false;
    }
    Comments.insert row
    extract_comment_mentions row
    pure row

  -- POST /comments/:id/replies
  unfoldable pub create_reply : String → Option Json → String → String → ℕ → Exec Db CommentRow
  unfolding extract_comment_mentions required require_comment
  create_reply parent_id request user_id id now = do
    parent ← require_comment parent_id
    body ← parse_json_body request
    raw ← get_field body "body"
    text ← required raw
    let row : CommentRow = record {
      id = id;
      note_id = parent.note_id;
      author_id = user_id;
      parent_comment_id = some parent.id;
      anchor = parent.anchor;
      original_quote = "";
      body = text;
      created_at = now;
      resolved_at = none;
      is_orphaned = false;
    }
    Comments.insert row
    extract_comment_mentions row
    pure row

-- GET /notes/:id/comments, with `?include=resolved` or without.
unfoldable pub list_comments : OrderBy → String → Bool → Exec Db (List CommentRow)
list_comments order note_id include_resolved = do
  require_live note_id
  gets (Comments.list_by_note order note_id include_resolved)

-- PATCH /comments/:id/resolve
unfoldable pub resolve_comment : String → ℕ → Exec Db CommentRow
unfolding require_comment
resolve_comment id now = do require_comment id; modify (Comments.resolve id now); require_comment id

-- PATCH /comments/:id/reopen
unfoldable pub reopen_comment : String → Exec Db CommentRow
unfolding require_comment
reopen_comment id = do require_comment id; modify (Comments.reopen id); require_comment id

-- DELETE /comments/:id
unfoldable pub delete_comment : String → Exec Db Unit
unfolding require_comment
delete_comment id = do require_comment id; modify (Comments.delete id)
