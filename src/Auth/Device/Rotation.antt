-- ===== src/Auth/Device/Rotation.antt =====
-- Proofs about POST /auth/token/refresh (server/src/auth/routes.ts).
use bartleby.Prelude.{
  ℕ, ◌+◌, ◌*◌, ◌<◌, String, ◌≡◌, ◌≢◌, sym, ap, ◌||◌, not, Option, none, some, arith, leb, is_none,
  eq_self, eq_of_ne, Bool-cases, Option-cases, inl, inr,
}
use bartleby.Json.{Json}
use bartleby.Auth.Map.{get-set}
use bartleby.Auth.Store.{
  Store, User, RefreshToken, get_user_by_id, create_refresh_token, get_refresh_token,
  revoke_refresh_token,
}
use bartleby.Auth.Session.{Jose, SessionConfig, refresh_token_ttl_seconds}
use bartleby.Auth.Device.{
  granted, denied, unauthenticated, TokenPair, string_field, issue_device_token_pair, refresh_row,
  token_refresh,
}

abbrev fresh_row : String → String → ℕ → RefreshToken
fresh_row token user_id now = record {
  token = token;
  user_id = user_id;
  expires_at = now + refresh_token_ttl_seconds * 1000;
  revoked_at = none;
}

-- What a refresh that succeeded says of the store before and after.
pub record IsRotated (token new_token : String) (now : ℕ) (s s' : Store) : Type 0 where
  pub row : RefreshToken
  pub user : User
  pub found : get_refresh_token token s ≡ some row
  pub unused : row.revoked_at ≡ none
  pub in_time : now < row.expires_at
  pub known : get_user_by_id row.user_id s ≡ some user
  pub revoked :
      token ≢ new_token → get_refresh_token token s' ≡ some (record row { revoked_at = some now })
  pub fresh : get_refresh_token new_token s' ≡ some (fresh_row new_token user.id now)

module _ (jose : Jose) (cfg : SessionConfig) (jti new_token : String) (now : ℕ) (s : Store) where
  revoked_then_issued :
      (token : String) (row : RefreshToken) (user : User)
      → get_refresh_token token s ≡ some row
      → row.revoked_at ≡ none
      → token ≢ new_token
      → get_refresh_token token
          (issue_device_token_pair jose cfg user jti new_token now
            (revoke_refresh_token token now s)).1
        ≡ some (record row { revoked_at = some now })
  unfolding issue_device_token_pair get_refresh_token revoke_refresh_token create_refresh_token
  revoked_then_issued token row user found unused ne =
      rw
        (
          get-set new_token token,
          eq_of_ne new_token token (λ e. ne (sym e)),
          found,
          revoke_refresh_token,
          unused,
        )
        (rw (get-set token token, eq_self token))

  issued :
      (token : String) (user : User)
      → get_refresh_token new_token
          (issue_device_token_pair jose cfg user jti new_token now
            (revoke_refresh_token token now s)).1
        ≡ some (fresh_row new_token user.id now)
  unfolding issue_device_token_pair get_refresh_token create_refresh_token
  issued token user = rw (get-set new_token new_token, eq_self new_token)

  refresh_row-IsRotated :
      (token : String) (row : RefreshToken) (pair : TokenPair) (s' : Store)
      → get_refresh_token token s ≡ some row
      → refresh_row jose cfg jti new_token now s token (some row) ≡ (granted pair, s')
      → IsRotated token new_token now s s'
  unfolding refresh_row
  refresh_row-IsRotated token row pair s' found e =
      elim (Bool-cases (not (is_none row.revoked_at) || leb row.expires_at now)) [
        | inl stop ↦ cc (rw stop at e)
        | inr go ↦ elim (Option-cases (get_user_by_id row.user_id s)) [
          | inl nobody ↦ cc (rw (go, nobody, refresh_row) at e)
          | inr (user, known) ↦
              let after = ap (λ r. r.1) (rw (go, known, refresh_row) at e) in
              let unused : row.revoked_at ≡ none = ground arith in
              record {
                row = row;
                user = user;
                found = found;
                unused = unused;
                in_time = ground arith;
                known = known;
                revoked = λ ne. rw (← after) (revoked_then_issued token row user found unused ne);
                fresh = rw (← after) (issued token user);
              }
        ]
      ]

-- A refresh succeeds only for a token that is stored, not revoked and not expired and whose user
-- exists; afterwards that token is revoked, unless it is the new one, and the new one is stored for
-- the same user, for 30 days.
pub token_refresh-IsRotated :
    (jose : Jose) (cfg : SessionConfig) (jti new_token : String) (now : ℕ) (s s' : Store)
    (body : Option Json) (token : String) (pair : TokenPair)
    → string_field body "refresh_token" ≡ some token
    → token_refresh jose cfg jti new_token now s body ≡ (granted pair, s')
    → IsRotated token new_token now s s'
unfolding token_refresh
token_refresh-IsRotated jose cfg jti new_token now s s' body token pair given e =
    elim (Option-cases (get_refresh_token token s)) [
      | inl missing ↦ cc (rw (given, token_refresh, missing) at e)
      | inr (row, found) ↦
          refresh_row-IsRotated jose cfg jti new_token now s token row pair s' found
            (rw (given, token_refresh, found) at e)
    ]

-- A refresh token that was used for a refresh, and that is not the token issued in its place, is
-- refused as unauthenticated from then on, at any time and whatever request presents it, and the
-- refusal leaves the store alone.
pub token_refresh_once :
    (jose : Jose) (cfg : SessionConfig) (jti new_token jti' new_token' : String) (now later : ℕ)
    (s s' : Store) (body body' : Option Json) (token : String) (pair : TokenPair)
    → string_field body "refresh_token" ≡ some token
    → string_field body' "refresh_token" ≡ some token
    → token ≢ new_token
    → token_refresh jose cfg jti new_token now s body ≡ (granted pair, s')
    → token_refresh jose cfg jti' new_token' later s' body' ≡ (denied unauthenticated, s')
unfolding token_refresh
token_refresh_once jose cfg jti new_token jti' new_token' now later s s' body body' token pair given
      given' ne e =
    let r = token_refresh-IsRotated jose cfg jti new_token now s s' body token pair given e in
    rw (given', token_refresh, r.revoked ne)
