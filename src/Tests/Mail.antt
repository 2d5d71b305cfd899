-- ===== src/Tests/Mail.antt =====
-- The theorems on the e-mails, at concrete events and transports.
use bartleby.Prelude.{
  none, Option, ℕ, zero, suc, String, true, ◌≡◌, refl, List, [], ◌∷◌, arith, inr, ◌<◌, ◌++◌, ◌++◌,
  some,
}
use bartleby.Db.{Db}
use bartleby.Tests.Data.{library}
use bartleby.Mentions.Pipeline.{on_send, enqueue_by_mention_id}
use bartleby.Mentions.Pipeline.Once.{enqueue_by_mention_id-on_send}
use bartleby.Mentions.Sender.{Attempt, sent, transient, send, classify, error}
use bartleby.Mentions.Sender.Retries.{send_lem, classify-IsRetriable, IsRetriable, is_transient}
use bartleby.Auth.Page
use bartleby.Mentions.Template.{escape_html, RenderedEmail, render_mention_batch}
use bartleby.Mentions.Template.Escape.{escape_html-page}
use bartleby.Mentions.Batcher.{note_body, MentionBatchItem, Event, enqueued, fired, run}
use bartleby.Mentions.Batcher.Order.{pending, handed, run-handed-pending}

abbrev item : String → String → MentionBatchItem
item id user = record {
  mention_id = id;
  mentioned_user_id = user;
  mentioner_name = "Alice";
  mentioner_email = "alice@example.com";
  recipient_name = "Bob";
  recipient_email = "bob@example.com";
  note_id = "n-trip";
  note_title = "Trip";
  source = note_body;
  snippet = "pack";
  mentioned_at = 20;
}

abbrev events : List Event
events =
    enqueued 0 (item "m-1" "u-bob")
    ∷ enqueued 5 (item "m-2" "u-alice")
    ∷ enqueued 9 (item "m-3" "u-bob")
    ∷ fired "u-bob"
    ∷ enqueued 12 (item "m-4" "u-bob")
    ∷ []

run-handed-pending_example :
    handed "u-bob" (run 60000 events []).0 ++ pending "u-bob" (run 60000 events []).1
    ≡ item "m-1" "u-bob" ∷ item "m-3" "u-bob" ∷ item "m-4" "u-bob" ∷ []
run-handed-pending_example = run-handed-pending 60000 events "u-bob" []

-- A transport that succeeds at the third call.
abbrev flaky : ℕ → Attempt
flaky zero = transient
flaky (suc zero) = transient
flaky (suc (suc n)) = sent "id"

flaky_before : (i : ℕ) → i < 2 → is_transient (flaky i) ≡ true
flaky_before zero h = refl
flaky_before (suc zero) h = refl
flaky_before (suc (suc n)) h = ground arith

send_lem_example :
    send flaky (1000 ∷ 5000 ∷ 30000 ∷ [])
    ≡ record { outcome = sent "id"; calls = 3; slept = 1000 ∷ 5000 ∷ [] }
send_lem_example = send_lem flaky 2 (1000 ∷ 5000 ∷ 30000 ∷ []) (omega arith) flaky_before (inr refl)

classify-IsRetriable_example :
    ((is_transient (classify (error (some 429))) ≡ true) → IsRetriable 429)
    × (IsRetriable 429 → is_transient (classify (error (some 429))) ≡ true)
classify-IsRetriable_example = classify-IsRetriable 429

abbrev unsent : Db
unsent = library none

enqueue_by_mention_id-on_send_example :
    enqueue_by_mention_id
      (λ text email. text)
      60000
      90
      "m-1"
      (on_send flaky (1000 ∷ 5000 ∷ 30000 ∷ []) 80 (item "m-1" "u-bob" ∷ []) unsent)
      []
    ≡ []
unfolding send
enqueue_by_mention_id-on_send_example =
    enqueue_by_mention_id-on_send (λ text email. text) flaky (1000 ∷ 5000 ∷ 30000 ∷ []) 80 60000 90
      (item "m-1" "u-bob" ∷ []) "m-1" unsent [] refl refl

escape_html-page_example : escape_html "<b>&</b>" ≡ Page.escape_html "<b>&</b>"
escape_html-page_example = escape_html-page "<b>&</b>"

abbrev bob_mail : Option RenderedEmail
bob_mail =
    render_mention_batch (λ s. s) (λ n. "1")
      (record {
        recipient_name = "Bob";
        public_base_url = "https://notes.example//";
        items = item "m-1" "u-bob" ∷ [];
      })

abbrev text_of : Option RenderedEmail → String
text_of none = ""
text_of (some mail) = mail.text

render_run :
    text_of bob_mail
    ≡ "Hi Bob,\n\nYou were mentioned in Bartleby:\n\n- Alice mentioned you in \"Trip\":\n  \"pack\"\n  https://notes.example/n/n-trip\n\nYou received this email because you were @-mentioned in a Bartleby note or comment."
unfolding render_mention_batch bartleby.Text.join
render_run = refl
