-- ===== src/Auth/Device.antt =====
-- The device-code flow and the rotation of refresh tokens (server/src/auth/routes.ts), and logout.
-- What `randomBytes` and `randomUUID` return are arguments.
pub mod Rotation
pub mod Flow
pub mod Logout
use bartleby.Prelude.{
  ℕ, String, Bool, true, false, ◌+◌, ◌*◌, ◌||◌, not, Option, none, some, leb, is_none,
  if◌then◌else◌,
}
use bartleby.Text.{trim, is_empty}
use bartleby.Json.{Json, str, obj, prop_of}
use bartleby.Auth.Map.{get}
use bartleby.Auth.Store.{
  Store, User, DeviceAuthorization, RefreshToken, get_user_by_id, revoke_jti,
  create_device_authorization, get_device_authorization_by_code, approve_device_authorization,
  create_refresh_token, get_refresh_token, revoke_refresh_token,
}
use bartleby.Auth.Session.{
  Jose, SessionConfig, SessionClaims, access_token_ttl_seconds, refresh_token_ttl_seconds,
  session_cookie_name, issue_session_jwt, verify_session_jwt, parse_cookies,
}

abbrev pub device_code_expires_in_seconds : ℕ
device_code_expires_in_seconds = 10 * 60

abbrev device_code_poll_interval_seconds : ℕ
device_code_poll_interval_seconds = 5

pub data Denial : Type 0 where
  bad_request unauthenticated not_found expired authorization_pending : Denial

-- The status that goes with each code.
pub status : Denial → ℕ
status bad_request = 400
status unauthenticated = 401
status not_found = 404
status expired = 410
status authorization_pending = 428

pub data Reply (A : Type 0) : Type 0 where
  granted : A → Reply A
  denied : Denial → Reply A

pub record TokenPair : Type 0 where
  pub access_token : String
  pub refresh_token : String

-- A field of the body that is a text and not empty; a body that is no JSON is `null`.
text_field : Option Json → Option String
text_field (some (str s)) = if is_empty s then none else some s
text_field _ = none

unfoldable pub string_field : Option Json → String → Option String
unfolding text_field
string_field (some (obj ps)) k = text_field (prop_of k ps)
string_field _ k = none

-- POST /auth/device/start
unfoldable pub device_start : String → String → String → ℕ → Store → DeviceAuthorization × Store
device_start device_code user_code uri now =
    create_device_authorization device_code user_code uri device_code_poll_interval_seconds
      (now + device_code_expires_in_seconds * 1000)

-- POST /device/approve, behind the gate; the code is compared in upper case.
approve_code : (String → String) → String → Option String → Store → Reply Unit × Store
approve_code to_upper_case user_id none s = (denied bad_request, s)
approve_code to_upper_case user_id (some user_code) s =
    elim (approve_device_authorization (to_upper_case (trim user_code)) user_id s) [
      | none ↦ (denied not_found, s)
      | some (row, s') ↦ (granted tt, s')
    ]

unfoldable pub device_approve :
    (String → String) → String → Option String → Store → Reply Unit × Store
unfolding approve_code
device_approve to_upper_case user_id user_code =
    approve_code to_upper_case user_id (given user_code)
  where
    given : Option String → Option String
    given none = none
    given (some code) = if is_empty code then none else some code

module _ (jose : Jose) (cfg : SessionConfig) where
  -- A new access token, and a new refresh token that is stored.
  unfoldable pub issue_device_token_pair :
      User → String → String → ℕ → Store → Reply TokenPair × Store
  issue_device_token_pair user jti new_token now s =
      let (row, s') =
        create_refresh_token new_token user.id (now + refresh_token_ttl_seconds * 1000) s in
      (
        granted (record {
          access_token =
              issue_session_jwt jose cfg
                (record {
                  user_id = user.id;
                  email = user.email;
                  display_name = user.display_name;
                  color = user.color;
                  jti = jti;
                  ttl_seconds = some access_token_ttl_seconds;
                })
                now;
          refresh_token = new_token;
        }),
        s',
      )

  -- POST /auth/device/poll
  module _ (jti new_token : String) (now : ℕ) (s : Store) where
    poll_user : Option User → Reply TokenPair × Store
    poll_user none = (denied unauthenticated, s)
    poll_user (some user) = issue_device_token_pair user jti new_token now s

    poll_approved : Option String → Reply TokenPair × Store
    unfolding poll_user
    poll_approved none = (denied authorization_pending, s)
    poll_approved (some user_id) = poll_user (get_user_by_id user_id s)

    poll_row : Option DeviceAuthorization → Reply TokenPair × Store
    unfolding poll_approved
    poll_row none = (denied not_found, s)
    poll_row (some row) =
        if leb row.expires_at now then (denied expired, s) else poll_approved row.approved_user_id

    poll_code : Option String → Reply TokenPair × Store
    unfolding poll_row
    poll_code none = (denied bad_request, s)
    poll_code (some code) = poll_row (get_device_authorization_by_code code s)

    unfoldable pub device_poll : Option Json → Reply TokenPair × Store
    unfolding poll_code string_field
    device_poll body = poll_code (string_field body "device_code")

    -- POST /auth/token/refresh
    refresh_user : String → Option User → Reply TokenPair × Store
    refresh_user token none = (denied unauthenticated, s)
    refresh_user token (some user) =
        issue_device_token_pair user jti new_token now (revoke_refresh_token token now s)

    refresh_row : String → Option RefreshToken → Reply TokenPair × Store
    unfolding refresh_user
    refresh_row token none = (denied unauthenticated, s)
    refresh_row token (some row) =
        if not (is_none row.revoked_at) || leb row.expires_at now
        then (denied unauthenticated, s)
        else refresh_user token (get_user_by_id row.user_id s)

    refresh_given : Option String → Reply TokenPair × Store
    unfolding refresh_row
    refresh_given none = (denied bad_request, s)
    refresh_given (some token) = refresh_row token (get_refresh_token token s)

    unfoldable pub token_refresh : Option Json → Reply TokenPair × Store
    unfolding refresh_given string_field
    token_refresh body = refresh_given (string_field body "refresh_token")

  -- POST /auth/logout: a valid session's id is revoked; the answer is the same in any case.
  revoke_claims : Store → Option SessionClaims → Store
  revoke_claims s none = s
  revoke_claims s (some claims) = revoke_jti claims.jti s

  logout_token : ℕ → Store → Option String → Store
  unfolding revoke_claims
  logout_token now s none = s
  logout_token now s (some token) =
      if is_empty token then s else revoke_claims s (verify_session_jwt jose cfg token now)

  unfoldable pub logout : Option String → ℕ → Store → Store
  unfolding logout_token
  logout cookie now s = logout_token now s (get session_cookie_name (parse_cookies cookie))
