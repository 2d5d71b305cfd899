-- ===== src/Mentions/Batcher/Order.antt =====
-- Proofs about the items of the batcher (server/src/mentions/batcher.ts).
use mathlib.Core.List.{append_assoc, append-nil}
use bartleby.Prelude.{
  ℕ, String, ◌==◌, ◌≡◌, refl, sym, ◌∙◌, Option, none, some, List, [], ◌∷◌, ◌++◌, if◌then◌else◌,
  arith, eq_iff, map,
}
use bartleby.Mentions.Batcher.{
  MentionBatchItem, PerUserState, Queues, Batch, enqueue, queue_of, forget, batch_of, fire_batch,
  fire_each, flush_all, Event, enqueued, fired, flushed, step, run,
}

-- What waits for one user, what was handed to `onSend` for that user, and what came in for it.
abbrev pub pending : String → Queues → List MentionBatchItem
pending user [] = []
pending user (s ∷ ss) = if s.user_id == user then s.items else pending user ss

abbrev pub handed : String → List Batch → List MentionBatchItem
handed user [] = []
handed user (b ∷ bs) = if b.user_id == user then b.items ++ handed user bs else handed user bs

abbrev pub came : String → List Event → List MentionBatchItem
came user [] = []
came user (enqueued now item ∷ es) =
    if item.mentioned_user_id == user then item ∷ came user es else came user es
came user (fired u ∷ es) = came user es
came user (flushed ∷ es) = came user es

handed-append : (u : String) (cs bs : List Batch) → handed u (cs ++ bs) ≡ handed u cs ++ handed u bs
handed-append u [] bs = refl
handed-append u (c ∷ cs) bs =
    ground (arith, handed-append u cs bs, append_assoc c.items (handed u cs) (handed u bs))

pending-enqueue :
    (u : String) (w now : ℕ) (item : MentionBatchItem) (qs : Queues)
    → pending u (enqueue w now item qs)
      ≡ (if item.mentioned_user_id == u then pending u qs ++ item ∷ [] else pending u qs)
unfolding enqueue
pending-enqueue u w now item [] = ground arith
pending-enqueue u w now item (s ∷ ss) = ground (
  arith,
  eq_iff s.user_id u,
  eq_iff item.mentioned_user_id u,
  eq_iff s.user_id item.mentioned_user_id,
  pending-enqueue u w now item ss,
)

pending-forget :
    (u v : String) (qs : Queues) → pending u (forget v qs) ≡ (if v == u then [] else pending u qs)
unfolding forget
pending-forget u v [] = ground arith
pending-forget u v (s ∷ ss) =
    ground (arith, eq_iff s.user_id u, eq_iff v u, eq_iff s.user_id v, pending-forget u v ss)

pending-queue_of :
    (u : String) (qs : Queues) (s : PerUserState) → queue_of u qs ≡ some s → pending u qs ≡ s.items
unfolding queue_of
pending-queue_of u [] s e = ground arith
pending-queue_of u (t ∷ ts) s e = ground (arith, pending-queue_of u ts s)

-- What one action hands over and leaves, of one user's items, is what waited.
abbrev Conserves : (Queues → List Batch × Queues) → Type 0
Conserves act =
    (u : String) (qs : Queues) → handed u (act qs).0 ++ pending u (act qs).1 ≡ pending u qs

batch_of-Conserves :
    (u v : String) (qs : Queues) (o : Option PerUserState)
    → queue_of v qs ≡ o
    → handed u (batch_of v qs o).0 ++ pending u (batch_of v qs o).1 ≡ pending u qs
unfolding batch_of
batch_of-Conserves u v qs none e = refl
batch_of-Conserves u v qs (some s) e = ground (
  arith,
  eq_iff v u,
  pending-forget u v qs,
  pending-queue_of v qs s e,
  append-nil s.items,
  append-nil (s.items ++ []),
)

fire_batch-Conserves : (v : String) → Conserves (fire_batch v)
unfolding fire_batch
fire_batch-Conserves v u qs = batch_of-Conserves u v qs (queue_of v qs) refl

fire_each-Conserves : (vs : List String) → Conserves (fire_each vs)
unfolding fire_each
fire_each-Conserves [] u qs = refl
fire_each-Conserves (v ∷ vs) u qs =
    rw
      (
        handed-append u (fire_batch v qs).0 (fire_each vs (fire_batch v qs).1).0,
        append_assoc (handed u (fire_batch v qs).0) (handed u (fire_each vs (fire_batch v qs).1).0)
            (pending u (fire_each vs (fire_batch v qs).1).1),
        fire_each-Conserves vs u (fire_batch v qs).1,
      )
      (fire_batch-Conserves v u qs)

step_lem :
    (w : ℕ) (e : Event) (u : String) (qs : Queues)
    → handed u (step w e qs).0 ++ pending u (step w e qs).1 ≡ pending u qs ++ came u (e ∷ [])
unfolding step flush_all
step_lem w (enqueued now item) u qs =
    ground (arith, pending-enqueue u w now item qs, append-nil (pending u qs))
step_lem w (fired v) u qs = fire_batch-Conserves v u qs ∙ sym (append-nil (pending u qs))
step_lem w flushed u qs =
    fire_each-Conserves (map (λ s. s.user_id) qs) u qs ∙ sym (append-nil (pending u qs))

came-cons :
    (u : String) (e : Event) (es : List Event) → came u (e ∷ es) ≡ came u (e ∷ []) ++ came u es
came-cons u (enqueued now item) es = ground arith
came-cons u (fired v) es = refl
came-cons u flushed es = refl

-- For each user, the items handed to the sender followed by the items that still wait are the items
-- that waited before followed by the items enqueued since, in the same order, whatever timers fire
-- and whenever the queues are flushed.
pub run-handed-pending :
    (window_ms : ℕ) (events : List Event) (user : String) (queues : Queues)
    → handed user (run window_ms events queues).0 ++ pending user (run window_ms events queues).1
      ≡ pending user queues ++ came user events
unfolding run
run-handed-pending w [] u qs = sym (append-nil (pending u qs))
run-handed-pending w (e ∷ es) u qs =
    let sent = (step w e qs).0 in
    let next = (step w e qs).1 in
    let more = (run w es next).0 in
    let last = (run w es next).1 in
    rw
      (
        handed-append u sent more,
        append_assoc (handed u sent) (handed u more) (pending u last),
        run-handed-pending w es u next,
        came-cons u e es,
        ← append_assoc (handed u sent) (pending u next) (came u es),
        step_lem w e u qs,
      )
      (append_assoc (pending u qs) (came u (e ∷ [])) (came u es))
