-- ===== src/Mentions/Sender/Retries.antt =====
-- Proofs about the retries of server/src/mentions/email-sender.ts.
use bartleby.Prelude.{
  ℕ, zero, suc, ◌+◌, ◌<◌, ◌≤◌, ◌≡◌, refl, Bool, true, false, List, [], ◌∷◌, length, take, arith,
  inl, inr, ◌⊎◌, some, ap, ◌∙◌, sym,
}
use bartleby.Mentions.Sender.{
  Attempt, sent, transient, permanent, Sending, send_from, send, classify, error,
  is_permanent_status, stop, slept_first,
}

abbrev pub is_transient : Attempt → Bool
is_transient (sent id) = false
is_transient transient = true
is_transient permanent = false

module _ (transport : ℕ → Attempt) where
  retried :
      (attempt d : ℕ) (ds : List ℕ)
      → is_transient (transport attempt) ≡ true
      → send_from transport attempt (d ∷ ds)
        ≡ slept_first transport d (send_from transport (suc attempt) ds)
  unfolding send_from
  retried attempt d ds e = go (transport attempt) e
    where
      go :
          (o : Attempt)
          → is_transient o ≡ true
          → elim o [
            | sent id ↦ stop transport attempt (sent id)
            | permanent ↦ stop transport attempt permanent
            | transient ↦ slept_first transport d (send_from transport (suc attempt) ds)
          ]
            ≡ slept_first transport d (send_from transport (suc attempt) ds)
      go transient e = refl
      go (sent id) e = ground arith
      go permanent e = ground arith

  stopped :
      (attempt d : ℕ) (ds : List ℕ)
      → is_transient (transport attempt) ≡ false
      → send_from transport attempt (d ∷ ds) ≡ stop transport attempt (transport attempt)
  unfolding send_from
  stopped attempt d ds e = go (transport attempt) e
    where
      go :
          (o : Attempt)
          → is_transient o ≡ false
          → elim o [
            | sent id ↦ stop transport attempt (sent id)
            | permanent ↦ stop transport attempt permanent
            | transient ↦ slept_first transport d (send_from transport (suc attempt) ds)
          ]
            ≡ stop transport attempt o
      go transient e = ground arith
      go (sent id) e = refl
      go permanent e = refl

  abbrev ended : ℕ → ℕ → List ℕ → Sending
  ended k m delays = record { outcome = transport m; calls = suc m; slept = take k delays }

  send_from_lem :
      (k m attempt : ℕ) (delays : List ℕ)
      → m ≡ k + attempt
      → k ≤ length delays
      → ((i : ℕ) → attempt ≤ i → i < m → is_transient (transport i) ≡ true)
      → (k ≡ length delays) ⊎ (is_transient (transport m) ≡ false)
      → send_from transport attempt delays ≡ ended k m delays
  unfolding send_from
  send_from_lem zero m attempt [] is le before at = rw (at_once) refl
    where
      at_once : m ≡ attempt
      at_once = omega arith
  send_from_lem zero m attempt (d ∷ ds) is le before (inl e) = ground arith
  send_from_lem zero m attempt (d ∷ ds) is le before (inr e) =
      rw (at_once) (stopped attempt d ds (rw (sym at_once) e))
    where
      at_once : m ≡ attempt
      at_once = omega arith
  send_from_lem (suc k) m attempt [] is le before at = ground arith
  send_from_lem (suc k) m attempt (d ∷ ds) is le before at =
      retried attempt d ds (before attempt omega arith omega arith)
      ∙ ap (slept_first transport d) (
          send_from_lem k m (suc attempt) ds omega arith omega arith
            (λ i from below. before i omega arith below) at_rest)
    where
      at_rest : (k ≡ length ds) ⊎ (is_transient (transport m) ≡ false)
      at_rest = elim at [ inl e ↦ inl omega arith | inr e ↦ inr e ]

  -- If every attempt before attempt k is transient, and attempt k is not, or is the last one that
  -- the delays allow, then sending calls the transport k + 1 times, sleeps the first k delays in
  -- order, and ends with the outcome of attempt k.
  pub send_lem :
      (k : ℕ) (retry_delays_ms : List ℕ)
      → k ≤ length retry_delays_ms
      → ((i : ℕ) → i < k → is_transient (transport i) ≡ true)
      → (k ≡ length retry_delays_ms) ⊎ (is_transient (transport k) ≡ false)
      → send transport retry_delays_ms
        ≡ record { outcome = transport k; calls = suc k; slept = take k retry_delays_ms }
  unfolding send
  send_lem k delays le before at =
      send_from_lem k k 0 delays omega arith le (λ i from below. before i below) at

-- The statuses that are worth another attempt.
abbrev pub IsRetriable : ℕ → Type 0
IsRetriable status = (status < 400) ⊎ (500 ≤ status) ⊎ (status ≡ 408) ⊎ (status ≡ 429)

-- An error status of the e-mail service counts as transient just where it is below 400, at least
-- 500, 408 or 429.
pub classify-IsRetriable :
    (status : ℕ)
    → ((is_transient (classify (error (some status))) ≡ true) → IsRetriable status)
      × (IsRetriable status → is_transient (classify (error (some status))) ≡ true)
unfolding classify is_permanent_status
classify-IsRetriable status = (λ h. grind arith, λ h. grind arith)
