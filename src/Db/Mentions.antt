-- ===== src/Db/Mentions.antt =====
-- server/src/db/repositories/mentions.ts
use bartleby.Prelude.{
  ℕ, String, Bool, true, ◌==◌, ◌&&◌, ◌||◌, not, Option, none, some, List, is_none, contains,
  if◌then◌else◌,
}
use bartleby.Http.{Exec, internal, raise, modify, ◌>>=◌}
use bartleby.Sql.{OrderBy, select, update, find, insert as append, any, asc, desc, then_by}
use bartleby.Sql.Rows.{keyed}
use bartleby.Db.{Db, MentionRow}
use bartleby.Db.Notes.{note_id, user_id}
use bartleby.Db.Tags.{text_le}

pub record MentionInsert : Type 0 where
  pub id : String
  pub note_id : String
  pub mentioned_user_id : String
  pub mentioning_user_id : String
  pub source : String
  pub created_at : ℕ

abbrev pub mention_id : MentionRow → String
mention_id m = m.id

abbrev pub fresh_row : MentionInsert → MentionRow
fresh_row m = record {
  id = m.id;
  note_id = m.note_id;
  mentioned_user_id = m.mentioned_user_id;
  mentioning_user_id = m.mentioning_user_id;
  source = m.source;
  created_at = m.created_at;
  read_at = none;
  email_sent_at = none;
}

-- The primary key, and three foreign keys.
abbrev pub refused : MentionInsert → Db → Bool
refused m db =
    any (keyed mention_id m.id) db.mentions
    || not (any (keyed note_id m.note_id) db.notes)
    || not (any (keyed user_id m.mentioned_user_id) db.users)
    || not (any (keyed user_id m.mentioning_user_id) db.users)

unfoldable pub insert : MentionInsert → Exec Db Unit
unfolding ◌>>=◌
insert m db =
    if refused m db
    then raise internal db
    else modify (λ d. record d { mentions = append (fresh_row m) d.mentions }) db

unfoldable pub find_by_id : String → Db → Option MentionRow
find_by_id id db = find (keyed mention_id id) db.mentions

abbrev pub is_for : String → Bool → MentionRow → Bool
is_for user unread m = m.mentioned_user_id == user && (not unread || is_none m.read_at)

abbrev pub is_in : String → Option String → MentionRow → Bool
is_in note source m = m.note_id == note && elim source [ none ↦ true | some s ↦ m.source == s ]

abbrev by_id : MentionRow → MentionRow → Bool
by_id m n = text_le m.id n.id

module _ (order : OrderBy) where
  -- ORDER BY created_at DESC, id
  unfoldable pub list_for_user : String → Bool → Db → List MentionRow
  list_for_user user unread db =
      order.sort (then_by (desc (λ m. m.created_at)) by_id)
        (select (is_for user unread) db.mentions)

  unfoldable pub list_for_note : String → Option String → Db → List MentionRow
  list_for_note note source db =
      order.sort (then_by (asc (λ m. m.created_at)) by_id) (select (is_in note source) db.mentions)

  unfoldable pub list_pending_email : Db → List MentionRow
  list_pending_email db =
      order.sort (then_by (asc (λ m. m.created_at)) by_id)
        (select (λ m. is_none m.email_sent_at) db.mentions)

unfoldable pub mark_read : String → ℕ → Db → Db
mark_read id at db = record db {
  mentions = update (keyed mention_id id) (λ m. record m { read_at = some at }) db.mentions;
}

-- With no id there is no statement; an UPDATE of no rows changes as much.
unfoldable pub mark_email_sent : List String → ℕ → Db → Db
mark_email_sent ids at db = record db {
  mentions =
      update (λ m. contains m.id ids) (λ m. record m { email_sent_at = some at }) db.mentions;
}
