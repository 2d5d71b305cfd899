-- ===== src/Mentions/Batcher.antt =====
-- The batcher of mention e-mails (server/src/mentions/batcher.ts): one queue and one timer for each
-- recipient. The timers and `onSend` are the caller's: an event says which timer has fired, and a
-- step gives the batches that it hands to `onSend`.
pub mod Order
use bartleby.Prelude.{
  ℕ, ◌+◌, String, Bool, ◌==◌, Option, none, some, List, [], ◌∷◌, ◌++◌, if◌then◌else◌, length, map,
}

-- What a mention e-mail is about (server/src/mentions/email-template.ts).
pub data MentionEmailSource : Type 0 where
  note_body comment : MentionEmailSource

pub record MentionBatchItem : Type 0 where
  pub mention_id : String
  pub mentioned_user_id : String
  pub mentioner_name : String
  pub mentioner_email : String
  pub recipient_name : String
  pub recipient_email : String
  pub note_id : String
  pub note_title : String
  pub source : MentionEmailSource
  pub snippet : String
  pub mentioned_at : ℕ

-- An entry of `queues`, with its key, and the time at which its timer fires.
pub record PerUserState : Type 0 where
  pub user_id : String
  pub items : List MentionBatchItem
  pub timer : ℕ

abbrev pub Queues : Type 0
Queues = List PerUserState

pub record Batch : Type 0 where
  pub user_id : String
  pub items : List MentionBatchItem

abbrev default_window_ms : ℕ
default_window_ms = 60000

-- `existing.items.push(item)` with a fresh timer, or a new entry at the end of the map.
unfoldable pub enqueue : ℕ → ℕ → MentionBatchItem → Queues → Queues
enqueue window_ms now item [] =
    record { user_id = item.mentioned_user_id; items = item ∷ []; timer = now + window_ms } ∷ []
enqueue window_ms now item (state ∷ rest) =
    if state.user_id == item.mentioned_user_id
    then record state { items = state.items ++ item ∷ []; timer = now + window_ms } ∷ rest
    else state ∷ enqueue window_ms now item rest

-- `queues.get(userId)`
unfoldable pub queue_of : String → Queues → Option PerUserState
queue_of user [] = none
queue_of user (state ∷ rest) = if state.user_id == user then some state else queue_of user rest

-- `queues.delete(userId)`
unfoldable pub forget : String → Queues → Queues
forget user [] = []
forget user (state ∷ rest) =
    let left = forget user rest in if state.user_id == user then left else state ∷ left

batch_of : String → Queues → Option PerUserState → List Batch × Queues
batch_of user queues none = ([], queues)
batch_of user queues (some state) =
    (record { user_id = user; items = state.items } ∷ [], forget user queues)

-- `fireBatch(userId)`: the queue is detached before `onSend` is called, whose failure is only
-- logged.
unfoldable pub fire_batch : String → Queues → List Batch × Queues
unfolding batch_of
fire_batch user queues = batch_of user queues (queue_of user queues)

fire_each : List String → Queues → List Batch × Queues
unfolding fire_batch
fire_each [] queues = ([], queues)
fire_each (user ∷ users) queues =
    let (sent, left) = fire_batch user queues in
    let (more, last) = fire_each users left in (sent ++ more, last)

-- `flushAll()`, over a snapshot of the keys.
unfoldable pub flush_all : Queues → List Batch × Queues
unfolding fire_each
flush_all queues = fire_each (map (λ s. s.user_id) queues) queues

unfoldable pub pending_count : Queues → ℕ
pending_count queues = length queues

pub data Event : Type 0 where
  enqueued : ℕ → MentionBatchItem → Event
  fired : String → Event
  flushed : Event

unfoldable pub step : ℕ → Event → Queues → List Batch × Queues
unfolding enqueue fire_batch flush_all
step window_ms (enqueued now item) queues = ([], enqueue window_ms now item queues)
step window_ms (fired user) queues = fire_batch user queues
step window_ms flushed queues = flush_all queues

unfoldable pub run : ℕ → List Event → Queues → List Batch × Queues
unfolding step
run window_ms [] queues = ([], queues)
run window_ms (e ∷ es) queues =
    let (sent, next) = step window_ms e queues in
    let (more, last) = run window_ms es next in (sent ++ more, last)
