-- ===== src/Mentions/Sender.antt =====
-- Sending one e-mail, with retries (server/src/mentions/email-sender.ts), and how an answer of the
-- Resend client is classified. The client is a parameter: what it answers to the n-th call.
pub mod Retries
use bartleby.Text.{is_empty}
use bartleby.Prelude.{
  ℕ, suc, String, Bool, true, false, not, ◌&&◌, ◌||◌, Option, none, some, List, [], ◌∷◌, ltb, leb,
  nat_eq, is_none, or_else, if◌then◌else◌,
}

-- `EmailTransportResult`, or the exception of the transport.
pub data Attempt : Type 0 where
  sent : String → Attempt
  transient permanent : Attempt

-- What `client.emails.send` does: it throws, it answers with an error, or with an id or none.
pub data ResendAnswer : Type 0 where
  threw : ResendAnswer
  error : Option ℕ → ResendAnswer
  data_id : Option String → ResendAnswer

unfoldable pub is_permanent_status : ℕ → Bool
is_permanent_status status =
    if nat_eq status 408 || nat_eq status 429 then false else leb 400 status && ltb status 500

-- `createResendEmailTransport(client).send`: an empty id is no id.
unfoldable pub classify : ResendAnswer → Attempt
unfolding is_permanent_status
classify threw = transient
classify (error status) = if is_permanent_status (or_else status 500) then permanent else transient
classify (data_id none) = transient
classify (data_id (some id)) = if is_empty id then transient else sent id

-- What `send` did: how it ended (anything but `sent` is an exception), the number of calls of the
-- transport, and the delays it slept, in order.
pub record Sending : Type 0 where
  pub outcome : Attempt
  pub calls : ℕ
  pub slept : List ℕ

abbrev default_retry_delays_ms : List ℕ
default_retry_delays_ms = 1000 ∷ 5000 ∷ 30000 ∷ []

module _ (transport : ℕ → Attempt) where
  -- The attempt, where it is the last one or its outcome is final.
  abbrev stop : ℕ → Attempt → Sending
  stop attempt outcome = record { outcome = outcome; calls = suc attempt; slept = [] }

  abbrev slept_first : ℕ → Sending → Sending
  slept_first d s = record s { slept = d ∷ s.slept }

  -- The loop from its `attempt`-th round on, with the delays that are left.
  unfoldable send_from : ℕ → List ℕ → Sending
  send_from attempt [] = stop attempt (transport attempt)
  send_from attempt (d ∷ ds) =
      let rest = send_from (suc attempt) ds in
      elim (transport attempt) [
        | sent id ↦ stop attempt (sent id)
        | permanent ↦ stop attempt permanent
        | transient ↦ slept_first d rest
      ]

  unfoldable pub send : List ℕ → Sending
  unfolding send_from
  send retry_delays_ms = send_from 0 retry_delays_ms
