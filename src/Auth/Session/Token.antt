-- ===== src/Auth/Session/Token.antt =====
-- Proofs about issuing and verifying tokens (server/src/auth/session.ts).
use bartleby.Prelude.{ℕ, ◌+◌, ◌≡◌, none, some, Bool-cases, inl, inr, ltb, or_else, if◌then◌else◌}
use bartleby.Auth.Session.{
  Jose, SessionConfig, SessionClaims, IssueSessionInput, issuer, audience, seconds,
  session_ttl_seconds, issue_session_jwt, verify_session_jwt,
}

abbrev pub claims_of : IssueSessionInput → SessionClaims
claims_of input = record {
  sub = input.user_id;
  jti = input.jti;
  email = input.email;
  display_name = input.display_name;
  color = input.color;
}

-- A token issued for a user verifies to that user's claims as long as fewer whole seconds have
-- passed than its time to live, seven days where none is given, and is refused from then on.
pub verify-issue :
    (jose : Jose) (cfg : SessionConfig) (input : IssueSessionInput) (issued now : ℕ)
    → verify_session_jwt jose cfg (issue_session_jwt jose cfg input issued) now ≡ (
        if ltb (seconds now) (seconds issued + or_else input.ttl_seconds session_ttl_seconds)
        then some (claims_of input)
        else none)
unfolding verify_session_jwt issue_session_jwt
verify-issue jose cfg input issued now =
    rw (jose.verify-sign cfg.secret_key issuer audience (seconds now) _)
      (elim (Bool-cases
        (ltb (seconds now) (seconds issued + or_else input.ttl_seconds session_ttl_seconds))) [
          | inl fresh ↦ rw fresh
          | inr late ↦ rw late
        ])
