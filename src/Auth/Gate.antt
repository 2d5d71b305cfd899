-- ===== src/Auth/Gate.antt =====
-- Who is let in: `requireSession` of the HTTP routes (server/src/auth/middleware.ts) and
-- `onAuthenticate` of the WebSocket (server/src/auth/hocuspocus.ts).
pub mod Sound
use bartleby.Prelude.{ℕ, String, Bool, true, false, Option, none, some, List, if◌then◌else◌}
use text.Mathlib.Text.{starts_with}
use bartleby.Text.{trim, is_empty}
use bartleby.Auth.Map.{get}
use bartleby.Auth.Store.{Store, User, Platform, get_user_by_id, is_jti_revoked}
use bartleby.Auth.Session.{
  Jose, SessionConfig, SessionClaims, session_cookie_name, verify_session_jwt, parse_cookies,
}

-- Why a request is refused.
pub data Denial : Type 0 where
  no_session invalid_session session_revoked user_not_found : Denial

pub data Outcome : Type 0 where
  admitted : User → SessionClaims → Outcome
  refused : Denial → Outcome

drop_chars : String → String → String
drop_chars String.[] s = s
drop_chars (String.◌∷◌ c p) String.[] = String.[]
drop_chars (String.◌∷◌ c p) (String.◌∷◌ d s) = drop_chars p s

-- The text, if it is not empty.
abbrev pub non_empty : String → Option String
non_empty s = if is_empty s then none else some s

unfoldable pub extract_bearer_token : Option String → Option String
unfolding drop_chars
extract_bearer_token none = none
extract_bearer_token (some header) =
    if starts_with header "Bearer " then non_empty (trim (drop_chars "Bearer " header)) else none

-- The bearer token comes before the cookie.
choose_token : Option String → Option String → Option String
choose_token (some bearer) cookie = some bearer
choose_token none none = none
choose_token none (some cookie) = non_empty cookie

-- The token of the Auth message, without a `Bearer ` of any case.
unfoldable pub message_token : Platform → String → String
unfolding drop_chars
message_token platform token =
    if starts_with (platform.to_lower_case (trim token)) "bearer "
    then trim (drop_chars "bearer " (trim token))
    else trim token

module _ (jose : Jose) (cfg : SessionConfig) (s : Store) (now : ℕ) where
  check_user : SessionClaims → Option User → Outcome
  check_user claims none = refused user_not_found
  check_user claims (some user) = admitted user claims

  check_claims : Option SessionClaims → Outcome
  unfolding check_user
  check_claims none = refused invalid_session
  check_claims (some claims) =
      if is_jti_revoked claims.jti s
      then refused session_revoked
      else check_user claims (get_user_by_id claims.sub s)

  -- What both clients' tokens go through.
  unfoldable pub check_token : String → Outcome
  unfolding check_claims
  check_token token = check_claims (verify_session_jwt jose cfg token now)

  check_chosen : Option String → Outcome
  check_chosen none = refused no_session
  check_chosen (some token) = check_token token

  -- The middleware, on the headers `cookie` and `authorization`.
  unfoldable pub require_session : Option String → Option String → Outcome
  unfolding check_chosen choose_token
  require_session cookie authorization = check_chosen (
      choose_token (extract_bearer_token authorization)
        (get session_cookie_name (parse_cookies cookie)))

  verify_cookie : Option String → Outcome
  unfolding check_chosen choose_token
  verify_cookie header =
      check_chosen (choose_token none (get session_cookie_name (parse_cookies header)))

  -- `onAuthenticate`, on the message's token and the header `cookie`. A token that was given and is
  -- refused is not replaced by the cookie.
  unfoldable pub on_authenticate : Platform → String → Option String → Outcome
  unfolding verify_cookie
  on_authenticate platform token cookie =
      if is_empty (message_token platform token)
      then verify_cookie cookie
      else check_token (message_token platform token)
