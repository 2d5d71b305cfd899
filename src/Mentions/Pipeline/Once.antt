-- ===== src/Mentions/Pipeline/Once.antt =====
-- Proofs about the pipeline of mention e-mails (server/src/mentions/pipeline.ts).
use bartleby.Prelude.{
  ℕ, String, true, ◌≡◌, refl, ◌==◌, none, some, List, [], ◌∷◌, map, arith, eq_iff, Bool-cases, inl,
  inr, contains,
}
use bartleby.Sql.{update, find}
use bartleby.Sql.Rows.{keyed}
use bartleby.Db.{Db, MentionRow}
use bartleby.Db.Mentions
use bartleby.Db.Mentions.{mention_id}
use bartleby.Mentions.Sender.{Attempt, send}
use bartleby.Mentions.Batcher.{MentionBatchItem, Queues}
use bartleby.Mentions.Pipeline.{returned, on_send, item_for, enqueue_by_mention_id}

abbrev ids_of : List MentionBatchItem → List String
ids_of = map λ b. b.mention_id

module _ (extract_snippet : String → String → String) (id : String) (ids : List String)
    (at : ℕ) where
  abbrev stamp : MentionRow → MentionRow
  stamp m = record m { email_sent_at = some at }

  -- Whatever row has the id, it is stamped.
  no_item :
      (db : Db) (rows : List MentionRow)
      → contains id ids ≡ true
      → item_for extract_snippet db
          (find (keyed mention_id id) (update (λ m. contains m.id ids) stamp rows))
        ≡ none
  no_item db [] member = refl
  no_item db (m ∷ ms) member = elim (Bool-cases (m.id == id)) [
    | inl same ↦
        let hit : contains m.id ids ≡ true = rw ((eq_iff m.id id).0 same) member in
        rw (hit, same) refl
    | inr other ↦ elim (Bool-cases (contains m.id ids)) [
      | inl hit ↦ rw (hit, other) (no_item db ms member)
      | inr miss ↦ rw (miss, other) (no_item db ms member)
    ]
  ]

-- Once the e-mail of a batch was sent, a later request to enqueue one of its mentions changes no
-- queue.
pub enqueue_by_mention_id-on_send :
    (extract_snippet : String → String → String) (transport : ℕ → Attempt) (delays : List ℕ)
    (at window_ms now : ℕ) (batch : List MentionBatchItem) (id : String) (db : Db) (queues : Queues)
    → returned (send transport delays).outcome ≡ true
    → contains id (ids_of batch) ≡ true
    → enqueue_by_mention_id extract_snippet window_ms now id
        (on_send transport delays at batch db)
        queues
      ≡ queues
unfolding on_send enqueue_by_mention_id Mentions.find_by_id Mentions.mark_email_sent
enqueue_by_mention_id-on_send extract_snippet transport delays at window_ms now [] id db queues ok
      member =
    ground arith
enqueue_by_mention_id-on_send extract_snippet transport delays at window_ms now (b ∷ bs) id db
      queues ok member =
    let marked = Mentions.mark_email_sent (ids_of (b ∷ bs)) at db in
    rw (ok, on_send)
      (rw (no_item extract_snippet id (ids_of (b ∷ bs)) at marked db.mentions member) refl)
