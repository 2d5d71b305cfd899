-- ===== src/Auth/Google.antt =====
-- Sign-in with Google (server/src/auth/routes.ts). Parameters: the client of Google's API, which may
-- throw, `decodeURIComponent`, which may throw, and `encodeURIComponent`. What `randomUUID` and the
-- clock return are arguments.
pub mod Safe
use Prim.Native.Char.{code}
use Prim.Native.String
use text.Mathlib.Text.{starts_with}
use bartleby.Prelude.{
  ℕ, String, Bool, true, false, not, ◌==◌, ◌||◌, Option, none, some, List, [], ◌∷◌, ◌++◌, nat_eq,
  if◌then◌else◌,
}
use bartleby.Text.{is_empty, join}
use bartleby.Http.{Result, ok, err}
use bartleby.Auth.Map.{Map, get}
use bartleby.Auth.Store.{Platform, Store, User, upsert_user_by_email}
use bartleby.Auth.Session.{
  Jose, SessionConfig, issue_session_jwt, parse_cookies, session_cookie_name,
}
use bartleby.Auth.Allowlist.{has}
use bartleby.Db.{Db}
use bartleby.Notes.{SessionUser, ensure_user_exists}

abbrev pub oauth_state_cookie : String
oauth_state_cookie = "bartleby_oauth_state"

abbrev pub post_login_redirect_cookie : String
post_login_redirect_cookie = "bartleby_post_login_redirect"

-- A cookie's header; `max_age` is the number as it is written.
unfoldable pub serialize_cookie : String → String → String → Bool → String
unfolding join
serialize_cookie name value max_age secure = join "; " (
    String.◌++◌ name (String.◌++◌ "=" value)
    ∷ "Path=/"
    ∷ "HttpOnly"
    ∷ "SameSite=Lax"
    ∷ String.◌++◌ "Max-Age=" max_age
    ∷ (if secure then "Secure" ∷ [] else []))

unfoldable pub serialize_oauth_state_cookie : String → Bool → String
unfolding serialize_cookie
serialize_oauth_state_cookie value =
    serialize_cookie oauth_state_cookie value (if is_empty value then "0" else "600")

unfoldable pub serialize_post_login_redirect_cookie : (String → String) → String → Bool → String
unfolding serialize_cookie
serialize_post_login_redirect_cookie encode value =
    serialize_cookie post_login_redirect_cookie (encode value)
      (if is_empty value then "0" else "600")

-- With the default age of seven days.
unfoldable pub serialize_session_cookie : String → Bool → String
unfolding serialize_cookie
serialize_session_cookie value = serialize_cookie session_cookie_name value "604800"

-- A path of this site, or `/`.
checked_path : Option String → String
checked_path none = "/"
checked_path (some path) = if not (starts_with path "/") || starts_with path "//" then "/" else path

unfoldable pub safe_return_to : (String → Option String) → Option String → String
unfolding checked_path
safe_return_to decode none = "/"
safe_return_to decode (some value) = if is_empty value then "/" else checked_path (decode value)

-- `url.replace(/\/$/, '')`
unfoldable pub without_slash : String → String
without_slash String.[] = String.[]
without_slash (String.◌∷◌ c String.[]) = if nat_eq (code c) b'/' then "" else String.◌∷◌ c ""
without_slash (String.◌∷◌ c (String.◌∷◌ d s)) = String.◌∷◌ c (without_slash (String.◌∷◌ d s))

unfoldable pub build_redirect_uri : String → String
unfolding without_slash
build_redirect_uri base_url = String.◌++◌ (without_slash base_url) "/auth/google/callback"

pub record GoogleUser : Type 0 where
  pub email : String
  pub display_name : String
  pub email_verified : Bool

pub record GoogleClient : Type 0 where
  pub build_authorize_url : String → String → String
  pub exchange_code : String → String → Option String
  pub fetch_user_info : String → Option GoogleUser

pub record Deps : Type 0 where
  pub platform : Platform
  pub jose : Jose
  pub config : SessionConfig
  pub google : GoogleClient
  pub allowlist : List String
  pub public_base_url : String
  pub post_login_redirect : String
  pub decode : String → Option String
  pub encode : String → String

-- `failed` is a throw.
pub data Answer : Type 0 where
  bad_request : String → Answer
  forbidden : String → Answer
  failed : Answer
  redirect : String → List String → Answer

abbrev pub State : Type 0
State = Store × Db

abbrev pub session_user : User → SessionUser
session_user u = record {
  id = u.id;
  email = u.email;
  display_name = u.display_name;
  color = u.color;
  created_at = u.created_at;
}

-- A query parameter that is there and not empty.
abbrev pub given : Option String → Option String
given none = none
given (some s) = if is_empty s then none else some s

module _ (deps : Deps) where
  -- GET /auth/google/start
  unfoldable pub google_start : String → Answer
  unfolding serialize_oauth_state_cookie build_redirect_uri
  google_start state =
      redirect (deps.google.build_authorize_url state (build_redirect_uri deps.public_base_url))
        (serialize_oauth_state_cookie state deps.config.secure_cookies ∷ [])

  -- The redirect that ends a sign-in, with the three cookies.
  abbrev pub welcome : Map String → String → Answer
  welcome cookies token =
      let return_to = safe_return_to deps.decode (get post_login_redirect_cookie cookies) in
      redirect
        (String.◌++◌ (without_slash deps.public_base_url)
          (if return_to == "/" then deps.post_login_redirect else return_to))
        (serialize_oauth_state_cookie "" deps.config.secure_cookies
          ∷ serialize_session_cookie token deps.config.secure_cookies
          ∷ serialize_post_login_redirect_cookie deps.encode "" deps.config.secure_cookies
          ∷ [])

  module _ (cookies : Map String) (id jti : String) (now : ℕ) where
    token_for : User → String
    token_for user =
        issue_session_jwt deps.jose deps.config
          (record {
            user_id = user.id;
            email = user.email;
            display_name = user.display_name;
            color = user.color;
            jti = jti;
            ttl_seconds = none;
          })
          now

    -- The user is in the store; now also in the database.
    bridged : User → Store → Result String × Db → Answer × State
    unfolding token_for
    bridged user s (err problem, db) = (failed, (s, db))
    bridged user s (ok user_id, db) = (welcome cookies (token_for user), (s, db))

    sign_in_user : Option (User × Store) → State → Answer × State
    unfolding bridged
    sign_in_user none s = (failed, s)
    sign_in_user (some (user, s')) s = bridged user s' (ensure_user_exists (session_user user) s.1)

    sign_in : Option GoogleUser → State → Answer × State
    unfolding sign_in_user has
    sign_in none s = (failed, s)
    sign_in (some info) s =
        if has deps.platform deps.allowlist info.email
        then sign_in_user
            (upsert_user_by_email deps.platform info.email info.display_name id now s.0) s
        else (forbidden (serialize_oauth_state_cookie "" deps.config.secure_cookies), s)

    user_info : Option String → Option GoogleUser
    user_info none = none
    user_info (some token) = deps.google.fetch_user_info token

    check_state : String → String → Option String → State → Answer × State
    unfolding sign_in user_info build_redirect_uri
    check_state code state none s = (bad_request "state mismatch", s)
    check_state code state (some cookie) s =
        if cookie == state
        then sign_in
            (user_info (deps.google.exchange_code code (build_redirect_uri deps.public_base_url))) s
        else (bad_request "state mismatch", s)

    with_state : String → Option String → State → Answer × State
    unfolding check_state
    with_state code none s = (bad_request "missing state", s)
    with_state code (some state) s = check_state code state (get oauth_state_cookie cookies) s

    with_code : Option String → Option String → State → Answer × State
    unfolding with_state
    with_code none state s = (bad_request "missing code", s)
    with_code (some code) state s = with_state code (given state) s

  -- GET /auth/google/callback
  unfoldable pub google_callback :
      Option String → Option String → Option String → String → String → ℕ → State → Answer × State
  unfolding with_code parse_cookies
  google_callback code state header id jti now =
      with_code (parse_cookies header) id jti now (given code) state
