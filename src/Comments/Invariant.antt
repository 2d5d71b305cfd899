-- ===== src/Comments/Invariant.antt =====
-- Proofs about the comments API (server/src/comments/routes.ts) and a valid database.
use bartleby.Prelude.{ℕ, String, Option, none, some, List, [], ◌∷◌}
use bartleby.Json.{Json}
use bartleby.Http.Keeps.{Keeps, Keeps-gets, Keeps-bind}
use bartleby.Db.{CommentRow, UserRow}
use bartleby.Db.Integrity.{IsValid}
use bartleby.Db.Integrity.Rules.{valid_rules}
use bartleby.Db.Comments.Integrity.{
  Comments_insert-IsValid, resolve-IsValid, reopen-IsValid, delete-IsValid,
}
use bartleby.Snapshots.Invariant.{require_live-IsValid}
use bartleby.Comments.{
  text_field, required, require_comment, mention, mention_each, extract_comment_mentions,
  create_comment, create_reply, resolve_comment, reopen_comment, delete_comment,
}

ruleset comment_rules = (
  valid_rules, require_live-IsValid, Comments_insert-IsValid, resolve-IsValid, reopen-IsValid,
  delete-IsValid,
)

text_field-IsValid : (body : Json) (field : String) → Keeps IsValid (text_field body field)
unfolding text_field
text_field-IsValid body field = search valid_rules

required-IsValid : (raw : Option Json) → Keeps IsValid (required raw)
unfolding required
required-IsValid none = search valid_rules
required-IsValid (some v) = search valid_rules

require_comment-IsValid : (id : String) → Keeps IsValid (require_comment id)
unfolding require_comment
require_comment-IsValid id = search valid_rules

module _ (emails_of : String → List String) (uuid : String → String) where
  mention-IsValid :
      (c : CommentRow) (email : String) (o : Option UserRow)
      → Keeps IsValid (mention emails_of uuid c email o)
  unfolding mention
  mention-IsValid c email none = search valid_rules
  mention-IsValid c email (some user) = search valid_rules

  mention_each-IsValid :
      (c : CommentRow) (emails : List String) → Keeps IsValid (mention_each emails_of uuid c emails)
  unfolding mention_each
  mention_each-IsValid c [] = search valid_rules
  mention_each-IsValid c (email ∷ emails) = Keeps-bind IsValid _ _ (Keeps-gets IsValid _) λ user.
      Keeps-bind IsValid _ _ (mention-IsValid c email user) λ _. mention_each-IsValid c emails

  extract_comment_mentions-IsValid :
      (c : CommentRow) → Keeps IsValid (extract_comment_mentions emails_of uuid c)
  unfolding extract_comment_mentions
  extract_comment_mentions-IsValid c = mention_each-IsValid c (emails_of c.body)

  pub create_comment-IsValid :
      (resolve_anchor : String → String → Option String) (note_id : String) (request : Option Json)
      (user_id id : String) (now : ℕ)
      → Keeps IsValid (create_comment emails_of uuid resolve_anchor note_id request user_id id now)
  unfolding create_comment
  create_comment-IsValid resolve_anchor note_id request user_id id now =
      search (comment_rules, text_field-IsValid, required-IsValid, extract_comment_mentions-IsValid)
        depth 40

  pub create_reply-IsValid :
      (parent_id : String) (request : Option Json) (user_id id : String) (now : ℕ)
      → Keeps IsValid (create_reply emails_of uuid parent_id request user_id id now)
  unfolding create_reply
  create_reply-IsValid parent_id request user_id id now =
      search
        (comment_rules, require_comment-IsValid, required-IsValid, extract_comment_mentions-IsValid)
        depth 40

pub resolve_comment-IsValid : (id : String) (now : ℕ) → Keeps IsValid (resolve_comment id now)
unfolding resolve_comment
resolve_comment-IsValid id now = search (comment_rules, require_comment-IsValid) depth 12

pub reopen_comment-IsValid : (id : String) → Keeps IsValid (reopen_comment id)
unfolding reopen_comment
reopen_comment-IsValid id = search (comment_rules, require_comment-IsValid) depth 12

pub delete_comment-IsValid : (id : String) → Keeps IsValid (delete_comment id)
unfolding delete_comment
delete_comment-IsValid id = search (comment_rules, require_comment-IsValid) depth 12
