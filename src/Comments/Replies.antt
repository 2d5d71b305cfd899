-- ===== src/Comments/Replies.antt =====
-- Proofs about replies in the comments API (server/src/comments/routes.ts): what a reply stores.
use bartleby.Prelude.{
  ℕ, String, true, false, ◌≡◌, refl, ap, ◌∙◌, Option, none, some, List, [], ◌∷◌, ◌++◌, arith,
  contains, Bool-cases, Option-cases, inl, inr,
}
use bartleby.Text.{trim, is_empty}
use bartleby.Json.{Properties, obj, str, prop_of, as_string, Json, get_field, parse_json_body}
use bartleby.Json.Keeps.{json_keeps, parse_json_body-Keeps, get_field-Keeps}
use bartleby.Http.{ok, ◌>>=◌}
use bartleby.Http.Keeps.{Keeps, Keeps-gets, Keeps-bind, keeps_rules}
use bartleby.Http.Yields.{ok-injective, bind_ok}
use mathlib.Core.Path.{subst}
use bartleby.Sql.{find}
use bartleby.Sql.Rows.{keyed, find-keyed}
use bartleby.Db.{Db, CommentRow, UserRow}
use bartleby.Db.Mentions
use bartleby.Db.Mentions.{MentionInsert, refused}
use bartleby.Db.Comments
use bartleby.Db.Comments.{comment_id, comment_ids, find_by_id}
use bartleby.Db.Comments.Thread.{HasParents, append-HasParents}
use bartleby.Comments.{
  required, require_comment, mention, mention_each, extract_comment_mentions, create_reply,
}

-- The comments are these.
abbrev Has : List CommentRow → Db → Type 0
Has rows db = db.comments ≡ rows

insert-Has : (rows : List CommentRow) (m : MentionInsert) → Keeps (Has rows) (Mentions.insert m)
unfolding Mentions.insert
insert-Has rows m = record {
  after = λ db h. elim (Bool-cases (refused m db)) [ inl stop ↦ rw stop h | inr fine ↦ rw fine h ];
}

module _ (emails_of : String → List String) (uuid : String → String) (rows : List CommentRow) where
  mention-Has :
      (c : CommentRow) (email : String) (o : Option UserRow)
      → Keeps (Has rows) (mention emails_of uuid c email o)
  unfolding mention
  mention-Has c email none = search keeps_rules
  mention-Has c email (some user) = search (keeps_rules, insert-Has)

  mention_each-Has :
      (c : CommentRow) (emails : List String)
      → Keeps (Has rows) (mention_each emails_of uuid c emails)
  unfolding mention_each
  mention_each-Has c [] = search keeps_rules
  mention_each-Has c (email ∷ emails) =
      Keeps-bind (Has rows) _ _ (Keeps-gets (Has rows) _)
        λ user. Keeps-bind (Has rows) _ _ (mention-Has c email user) λ _. mention_each-Has c emails

-- A read leaves the database as it is.
abbrev Is : Db → Db → Type 0
Is db s = s ≡ db

required-Is : (db : Db) (raw : Option Json) → Keeps (Is db) (required raw)
unfolding required
required-Is db none = search (keeps_rules, json_keeps)
required-Is db (some v) = search (keeps_rules, json_keeps)

require_comment_ok :
    (id : String) (db : Db) (c : CommentRow)
    → (require_comment id db).0 ≡ ok c
    → (find_by_id id db ≡ some c) × ((require_comment id db).1 ≡ db)
unfolding require_comment ◌>>=◌
require_comment_ok id db c e = elim (Option-cases (find_by_id id db)) [
  | inl absent ↦ cc (rw absent at e)
  | inr (d, found) ↦ let same : d ≡ c = cc (rw found at e) in rw (found, same) (refl, refl)
]

insert_ok :
    (row : CommentRow) (db : Db)
    → (Comments.insert row db).0 ≡ ok tt
    → (Comments.insert row db).1.comments ≡ db.comments ++ row ∷ []
unfolding Comments.insert
insert_ok row db e = elim (Bool-cases (Comments.refused row db)) [
  | inl stop ↦ cc (rw stop at e)
  | inr fine ↦ rw fine refl
]

contains_found :
    (k : String) (cs : List CommentRow) (c : CommentRow)
    → find (keyed comment_id k) cs ≡ some c
    → contains k (comment_ids cs) ≡ true
contains_found k [] c e = cc
contains_found k (d ∷ ds) c e = ground (arith, contains_found k ds c)

-- The row of a reply.
abbrev reply_to : CommentRow → String → String → String → ℕ → CommentRow
reply_to parent user_id id text now = record parent {
  id = id;
  author_id = user_id;
  parent_comment_id = some parent.id;
  original_quote = "";
  body = text;
  created_at = now;
  resolved_at = none;
  is_orphaned = false;
}

-- The text is the field `body` of a request, and not blank.
abbrev pub IsBody : Option Json → String → Type 0
IsBody request text =
    (fields : Properties) × (request ≡ some (obj fields))
    × (prop_of "body" fields ≡ some (str text))
    × (is_empty (trim text) ≡ false)

request_ok :
    (request : Option Json) (body : Json) (db : Db)
    → (parse_json_body request db).0 ≡ ok body
    → request ≡ some body
unfolding parse_json_body ◌>>=◌
request_ok none body db e = cc
request_ok (some v) body db e = ap some cc

required_ok :
    (raw : Option Json) (text : String) (db : Db)
    → (required raw db).0 ≡ ok text
    → (raw ≡ some (str text)) × (is_empty (trim text) ≡ false)
unfolding required as_string ◌>>=◌
required_ok none text db e = cc
required_ok (some (str s)) text db e = elim (Bool-cases (is_empty (trim s))) [
  | inl blank ↦ cc (rw blank at e)
  | inr given ↦ let same : s ≡ text = cc (rw given at e) in rw (← same) (refl, given)
]
required_ok (some v) text db e = cc

field_ok :
    (body : Json) (text : String) (db : Db)
    → (get_field body "body" db).0 ≡ ok (some (str text))
    → (fields : Properties) × (body ≡ obj fields) × (prop_of "body" fields ≡ some (str text))
unfolding get_field ◌>>=◌
field_ok (obj fields) text db e = (fields, refl, cc)
field_ok v text db e = cc

-- A reply to a stored comment, at the end of the table.
pub record IsReply (parent_id : String) (request : Option Json) (user_id id : String) (now : ℕ)
    (row : CommentRow) (db db' : Db) : Type 0 where
  pub parent : CommentRow
  pub found : find_by_id parent_id db ≡ some parent
  pub named : row.parent_comment_id ≡ some parent_id
  pub note : row.note_id ≡ parent.note_id
  pub anchor : row.anchor ≡ parent.anchor
  pub written : (row.id ≡ id) × (row.author_id ≡ user_id) × (row.created_at ≡ now)
  pub body : IsBody request row.body
  pub unresolved : (row.resolved_at ≡ none) × (row.is_orphaned ≡ false)
  pub stored : db'.comments ≡ db.comments ++ row ∷ []
  pub threaded : HasParents db'

-- Where the parent of every reply is stored and stands before it, a reply that is accepted answers
-- a stored comment: the row that comes back names that comment as its parent, has its note and its
-- anchor, the author, the id and the time of the call, and as its text the field body of the
-- request, which is not blank, and is unresolved; it is added at the end of the comments, which are
-- otherwise as they were; and the parent of every reply is then stored and stands before it again.
pub create_reply-IsReply :
    (emails_of : String → List String) (uuid : String → String) (parent_id : String)
    (request : Option Json) (user_id id : String) (now : ℕ) (db db' : Db) (row : CommentRow)
    → HasParents db
    → create_reply emails_of uuid parent_id request user_id id now db ≡ (ok row, db')
    → IsReply parent_id request user_id id now row db db'
unfolding create_reply extract_comment_mentions ◌>>=◌ find_by_id
create_reply-IsReply emails_of uuid parent_id request user_id id now db db' row h e =
    let (parent, r1, e1) = bind_ok (require_comment parent_id) _ db db' row e in
    let (found, same) = require_comment_ok parent_id db parent r1 in
    let (body, r2, e2) = bind_ok (parse_json_body request) _ _ db' row e1 in
    let same2 = (parse_json_body-Keeps (Is db) request).after _ same in
    let (raw, r3, e3) = bind_ok (get_field body "body") _ _ db' row e2 in
    let same3 = (get_field-Keeps (Is db) body "body").after _ same2 in
    let (text, r4, e4) = bind_ok (required raw) _ _ db' row e3 in
    let same4 = (required-Is db raw).after _ same3 in
    let (some_text, not_blank) = required_ok raw text _ r4 in
    let (fields, is_object, has_text) = field_ok body text _ (r3 ∙ ap ok some_text) in
    let (done, r5, e5) = bind_ok (Comments.insert _) _ _ db' row e4 in
    let reply = reply_to parent user_id id text now in
    let (told, r6, e6) = bind_ok (extract_comment_mentions emails_of uuid reply) _ _ db' row e5 in
    let (same_row, same_db) = ok-injective reply row _ db' e6 in
    let added = insert_ok reply _ r5 ∙ ap (λ d. d.comments ++ reply ∷ []) same4 in
    let kept =
      (mention_each-Has emails_of uuid (db.comments ++ reply ∷ []) reply (emails_of text)).after _
        added in
    let stored = subst (λ d. d.comments ≡ db.comments ++ reply ∷ []) same_db kept in
    let parent_named = find-keyed comment_id parent_id db.comments parent found in
    rw (← same_row) (record {
      parent = parent;
      found = found;
      named = ap some parent_named;
      note = refl;
      anchor = refl;
      written = (refl, refl, refl);
      body = (fields, request_ok request body _ r2 ∙ ap some is_object, has_text, not_blank);
      unresolved = (refl, refl);
      stored = stored;
      threaded = rw stored (
          append-HasParents parent.id reply db refl
            (contains_found parent.id db.comments parent (rw parent_named found)) h);
    })
