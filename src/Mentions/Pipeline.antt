-- ===== src/Mentions/Pipeline.antt =====
-- The pipeline of mention e-mails (server/src/mentions/pipeline.ts). The snippet of the note's text
-- for a recipient is a parameter; what the rendered e-mail says is the transport's concern.
pub mod Once
use text.Mathlib.Text.{starts_with}
use bartleby.Prelude.{
  ℕ, String, Bool, true, false, Option, none, some, List, [], ◌∷◌, map, if◌then◌else◌,
}
use bartleby.Db.{Db, NoteRow, UserRow, MentionRow}
use bartleby.Db.Users
use bartleby.Db.Notes
use bartleby.Db.Mentions
use bartleby.Mentions.Sender.{Attempt, sent, transient, permanent, send}
use bartleby.Mentions.Batcher.{
  MentionBatchItem, MentionEmailSource, note_body, comment, Queues, enqueue,
}

unfoldable pub classify_source : String → MentionEmailSource
classify_source source = if starts_with source "comment:" then comment else note_body

-- Whether `send` returned, where it did not throw.
abbrev pub returned : Attempt → Bool
returned (sent id) = true
returned transient = false
returned permanent = false

-- `onSend`: a batch whose e-mail could not be sent stays unmarked.
unfoldable pub on_send : (ℕ → Attempt) → List ℕ → ℕ → List MentionBatchItem → Db → Db
on_send transport retry_delays_ms now [] db = db
on_send transport retry_delays_ms now (first ∷ rest) db =
    if returned (send transport retry_delays_ms).outcome
    then Mentions.mark_email_sent (map (λ b. b.mention_id) (first ∷ rest)) now db
    else db

module _ (extract_snippet : String → String → String) where
  abbrev item_of : MentionRow → UserRow → UserRow → NoteRow → MentionBatchItem
  item_of row recipient mentioner note = record {
    mention_id = row.id;
    mentioned_user_id = row.mentioned_user_id;
    mentioner_name = mentioner.display_name;
    mentioner_email = mentioner.email;
    recipient_name = recipient.display_name;
    recipient_email = recipient.email;
    note_id = note.id;
    note_title = note.title;
    source = classify_source row.source;
    snippet = extract_snippet note.markdown_export recipient.email;
    mentioned_at = row.created_at;
  }

  abbrev with_note : MentionRow → UserRow → UserRow → Option NoteRow → Option MentionBatchItem
  with_note row recipient mentioner none = none
  with_note row recipient mentioner (some note) = some (item_of row recipient mentioner note)

  abbrev with_mentioner : Db → MentionRow → UserRow → Option UserRow → Option MentionBatchItem
  with_mentioner db row recipient none = none
  with_mentioner db row recipient (some mentioner) =
      with_note row recipient mentioner (Notes.find_by_id row.note_id db)

  abbrev with_recipient : Db → MentionRow → Option UserRow → Option MentionBatchItem
  with_recipient db row none = none
  with_recipient db row (some recipient) =
      with_mentioner db row recipient (Users.find_by_id row.mentioning_user_id db)

  -- A mention whose e-mail was sent, or one of whose rows is missing, gives no item.
  abbrev pub item_for : Db → Option MentionRow → Option MentionBatchItem
  item_for db none = none
  item_for db (some row) = elim row.email_sent_at [
    | some at ↦ none
    | none ↦ with_recipient db row (Users.find_by_id row.mentioned_user_id db)
  ]

  abbrev pub enqueue_item : ℕ → ℕ → Option MentionBatchItem → Queues → Queues
  enqueue_item window_ms now none queues = queues
  enqueue_item window_ms now (some item) queues = enqueue window_ms now item queues

  -- `enqueueByMentionId`
  unfoldable pub enqueue_by_mention_id : ℕ → ℕ → String → Db → Queues → Queues
  enqueue_by_mention_id window_ms now id db queues =
      enqueue_item window_ms now (item_for db (Mentions.find_by_id id db)) queues
