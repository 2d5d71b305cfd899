-- ===== src/Auth/Device/Logout.antt =====
-- Proofs about POST /auth/logout (server/src/auth/routes.ts) and the gate
-- (server/src/auth/middleware.ts).
use bartleby.Prelude.{ℕ, String, false, ◌≡◌, ◌≢◌, refl, Option, some, arith, eq_iff}
use bartleby.Text.{is_empty}
use bartleby.Auth.Map.{get}
use bartleby.Auth.Store.{Store, User, revoke_jti}
use bartleby.Auth.Session.{
  Jose, SessionConfig, SessionClaims, session_cookie_name, parse_cookies, verify_session_jwt,
}
use bartleby.Auth.Device.{logout, logout_token, revoke_claims}
use bartleby.Auth.Gate.{admitted, require_session}
use bartleby.Auth.Gate.Sound.{require_session-IsGenuine}

module _ (jose : Jose) (cfg : SessionConfig) (header : Option String) (token : String)
    (claims : SessionClaims) (now : ℕ) (s : Store) where
  -- The store after the logout has the session's id among the revoked ones.
  logged_out :
      get session_cookie_name (parse_cookies header) ≡ some token
      → is_empty token ≡ false
      → verify_session_jwt jose cfg token now ≡ some claims
      → logout jose cfg header now s ≡ revoke_jti claims.jti s
  unfolding logout logout_token revoke_claims
  logged_out sent given fine = rw (sent, logout_token, given, fine) refl

  -- After a logout whose cookie has a token that verifies, not empty, no request that passes the
  -- session gate, at any time and with any token, has the id of that session in its claims.
  pub require_session-logout :
      (cookie authorization : Option String) (later : ℕ) (user : User)
      (admitted_claims : SessionClaims)
      → get session_cookie_name (parse_cookies header) ≡ some token
      → is_empty token ≡ false
      → verify_session_jwt jose cfg token now ≡ some claims
      → require_session jose cfg (logout jose cfg header now s) later cookie authorization
        ≡ admitted user admitted_claims
      → admitted_claims.jti ≢ claims.jti
  unfolding revoke_jti
  require_session-logout cookie authorization later user admitted_claims sent given fine e same =
      let (t, presented, genuine) =
        require_session-IsGenuine jose cfg _ later cookie authorization user admitted_claims e in
      let current = rw (logged_out sent given fine) at genuine.current in
      ground (arith, eq_iff claims.jti admitted_claims.jti, current, same)
