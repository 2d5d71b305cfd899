-- ===== src/Auth/Dev.antt =====
-- The sign-in for tests (server/src/auth/dev-routes.ts), with the repositories given, as the server
-- mounts it.
pub mod Welcome
use bartleby.Prelude.{ℕ, String, Option, none, some, List, [], ◌∷◌, or_else, if◌then◌else◌}
use bartleby.Text.{is_empty}
use bartleby.Json.{Json, str, obj, null, prop_of}
use bartleby.Http.{Result, ok, err}
use bartleby.Db.{Db}
use bartleby.Notes.{ensure_user_exists}
use bartleby.Auth.Store.{Platform, Store, User, upsert_user_by_email}
use bartleby.Auth.Session.{Jose, SessionConfig, IssueSessionInput, issue_session_jwt, split}
use bartleby.Auth.Google.{State, session_user, serialize_session_cookie}

-- `failed` is a throw; `signed_in` comes with the cookie's header.
pub data Answer : Type 0 where
  bad_request : String → Answer
  failed : Answer
  signed_in : User → String → Answer

-- `asString`
as_string : Option Json → Option String
as_string (some (str s)) = if is_empty s then none else some s
as_string _ = none

-- `body.email`, where the body is not `null`
text_field : String → Json → Option String
unfolding as_string
text_field k (obj ps) = as_string (prop_of k ps)
text_field k v = none

abbrev pub first_part : List String → String
first_part [] = ""
first_part (s ∷ ss) = s

abbrev pub input_for : User → String → IssueSessionInput
input_for user jti = record {
  user_id = user.id;
  email = user.email;
  display_name = user.display_name;
  color = user.color;
  jti = jti;
  ttl_seconds = none;
}

module _ (platform : Platform) (jose : Jose) (cfg : SessionConfig) (id jti : String) (now : ℕ) where
  -- The user is in the store; now also in the database.
  bridged : User → Store → Result String × Db → Answer × State
  unfolding serialize_session_cookie
  bridged user s (err problem, db) = (failed, (s, db))
  bridged user s (ok user_id, db) = (
    signed_in user (
        serialize_session_cookie (issue_session_jwt jose cfg (input_for user jti) now)
          cfg.secure_cookies),
    (s, db),
  )

  sign_in_user : Option (User × Store) → State → Answer × State
  unfolding bridged
  sign_in_user none s = (failed, s)
  sign_in_user (some (user, store)) s =
      bridged user store (ensure_user_exists (session_user user) s.1)

  sign_in_as : Option String → Option String → State → Answer × State
  unfolding sign_in_user split
  sign_in_as none name s = (bad_request "email is required (string)", s)
  sign_in_as (some email) name s =
      sign_in_user
        (upsert_user_by_email platform email (or_else name (first_part (split b'@' email))) id now
          s.0)
        s

  -- POST /auth/dev/sign-in; `none` is a body that is not JSON.
  unfoldable pub dev_sign_in : Option Json → State → Answer × State
  unfolding sign_in_as text_field
  dev_sign_in none s = (bad_request "body must be JSON", s)
  dev_sign_in (some null) s = (failed, s)
  dev_sign_in (some body) s = sign_in_as (text_field "email" body) (text_field "displayName" body) s
