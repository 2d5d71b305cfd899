-- ===== src/Tests/SignIn.antt =====
-- The theorems on sign-in, at small inputs.
use text.Mathlib.Text.{starts_with}
use Prim.Native.String.{count}
use mathlib.Core.List.{Permᴰ}
use bartleby.Prelude.{
  String, true, false, not, ◌&&◌, ◌≡◌, ◌*◌, refl, Option, some, List, [], ◌∷◌, map, contains,
}
use bartleby.Text.{AllChars, is_empty}
use bartleby.Auth.Store.{Platform, User, normalize, empty}
use bartleby.Auth.Session.{split}
use bartleby.Auth.Store.Sqlite.Refinement.{Both, upsert_user_by_email-Refines, empty-Refines}
use bartleby.Auth.Allowlist.{has, list_users}
use bartleby.Auth.Allowlist.Members.{has-load_allowlist, list_users-perm}
use bartleby.Auth.Google.{Deps, State, Answer, google_callback, safe_return_to, redirect}
use bartleby.Auth.Google.Safe.{safe_return_to_local, IsAllowed, google_callback-IsAllowed}
use bartleby.Json.{Json, str, obj, property, no_properties}
use bartleby.Auth.Dev
use bartleby.Auth.Dev.Welcome.{IsWelcome, dev_sign_in-IsWelcome}
use bartleby.Auth.Page.{escape_html, random_user_code}
use bartleby.Auth.Page.Escape.{
  is_inert, escape_html-AllChars, is_code_char, random_user_code-AllChars,
}
use bartleby.Db
use bartleby.Tests.Codec.{plain_jose}

abbrev platform : Platform
platform = record { to_lower_case = λ s. s; first_byte = λ s. 7 }

abbrev deps : Deps
deps = record {
  platform = platform;
  jose = plain_jose;
  config = record { secret_key = "key"; secure_cookies = true };
  google = record {
    build_authorize_url = λ state uri. uri;
    exchange_code = λ code uri. some code;
    fetch_user_info = λ token.
        some (record { email = "ann@example.com"; display_name = "Ann"; email_verified = true });
  };
  allowlist = "ann@example.com" ∷ [];
  public_base_url = "https://notes.example/";
  post_login_redirect = "/";
  decode = λ s. some s;
  encode = λ s. s;
}

abbrev begin : State
begin = (empty, Db.empty)

abbrev header : Option String
header = some "bartleby_oauth_state=xyz; bartleby_post_login_redirect=/n/1"

abbrev signed_in : Answer × State
signed_in = google_callback deps (some "c") (some "xyz") header "u-1" "j-1" 5000 begin

abbrev place : Answer → String
place (redirect url cookies) = url
place other = ""

abbrev cookies_of : Answer → List String
cookies_of (redirect url cookies) = cookies
cookies_of other = []

google_callback-IsAllowed_example : IsAllowed deps (some "c") (some "xyz") header
unfolding google_callback bartleby.Auth.Map.get bartleby.Text.trim bartleby.Auth.Map.set
    bartleby.Auth.Store.upsert_user_by_email bartleby.Notes.ensure_user_exists bartleby.Http.◌>>=◌
    bartleby.Db.Users.find_by_email bartleby.Db.Users.insert
google_callback-IsAllowed_example =
    google_callback-IsAllowed deps header "u-1" "j-1" 5000 begin signed_in.1 (place signed_in.0)
      (cookies_of signed_in.0) (some "c") (some "xyz") refl

callback_run : place signed_in.0 ≡ "https://notes.example/n/1"
unfolding google_callback bartleby.Auth.Map.get bartleby.Text.trim bartleby.Auth.Map.set
    bartleby.Auth.Store.upsert_user_by_email bartleby.Notes.ensure_user_exists bartleby.Http.◌>>=◌
    bartleby.Db.Users.find_by_email bartleby.Db.Users.insert safe_return_to
callback_run = refl

safe_return_to_local_example :
    (starts_with (safe_return_to (λ s. some s) (some "//evil.example")) "/" ≡ true)
    × (starts_with (safe_return_to (λ s. some s) (some "//evil.example")) "//" ≡ false)
safe_return_to_local_example = safe_return_to_local (λ s. some s) (some "//evil.example")

has-load_allowlist_example :
    has platform ("ann@example.com" ∷ "bo@example.com" ∷ []) " bo@example.com " ≡ (
      not (is_empty (normalize platform " bo@example.com "))
      && contains
          (normalize platform " bo@example.com ")
          (map (normalize platform) (split b',' "ann@example.com,, bo@example.com")))
unfolding bartleby.Auth.Allowlist.load_allowlist bartleby.Text.trim
has-load_allowlist_example =
    has-load_allowlist platform "ann@example.com,, bo@example.com"
      ("ann@example.com" ∷ "bo@example.com" ∷ []) " bo@example.com " refl

list_users-perm_example :
    Permᴰ
      (map (λ r. r.email) (list_users (λ s t. true) ("ann@example.com" ∷ "bo@example.com" ∷ []) []))
      ("ann@example.com" ∷ "bo@example.com" ∷ [])
list_users-perm_example =
    list_users-perm (λ s t. true) [] ("ann@example.com" ∷ "bo@example.com" ∷ [])

escape_html-AllChars_example : AllChars is_inert (escape_html "\"><script>")
escape_html-AllChars_example = escape_html-AllChars "\"><script>"

random_user_code-AllChars_example :
    (count (random_user_code (λ i. i * 77)) ≡ 9)
    × AllChars is_code_char (random_user_code (λ i. i * 77))
random_user_code-AllChars_example = random_user_code-AllChars (λ i. i * 77)

upsert_user_by_email-Refines_example :
    Both platform empty (empty, Db.empty) "Ann" "u-1" 5000 " ann@example.com "
unfolding normalize bartleby.Text.trim bartleby.Db.Users.find_by_id
upsert_user_by_email-Refines_example =
    upsert_user_by_email-Refines platform empty (empty, Db.empty) (empty-Refines Db.empty refl)
      "Ann" "u-1" 5000 refl " ann@example.com " refl

abbrev dev_body : Option Json
dev_body = some (obj (property "email" (str "ann@example.com") no_properties))

abbrev dev_session : Dev.Answer × State
dev_session = Dev.dev_sign_in platform plain_jose deps.config "u-1" "j-1" 5000 dev_body begin

abbrev user_of : Dev.Answer → User
user_of (Dev.signed_in user cookie) = user
user_of other = record { id = ""; email = ""; display_name = ""; color = ""; created_at = 0 }

abbrev cookie_of : Dev.Answer → String
cookie_of (Dev.signed_in user cookie) = cookie
cookie_of other = ""

dev_sign_in-IsWelcome_example :
    IsWelcome platform plain_jose deps.config "u-1" "j-1" 5000
      (user_of dev_session.0)
      (cookie_of dev_session.0)
      dev_session.1
      64000
unfolding Dev.dev_sign_in bartleby.Auth.Map.get bartleby.Text.trim bartleby.Auth.Map.set
    bartleby.Auth.Store.upsert_user_by_email bartleby.Notes.ensure_user_exists bartleby.Http.◌>>=◌
    bartleby.Db.Users.find_by_email bartleby.Db.Users.insert bartleby.Auth.Store.is_jti_revoked
dev_sign_in-IsWelcome_example =
    dev_sign_in-IsWelcome platform plain_jose deps.config "u-1" "j-1" 5000 begin dev_session.1
      (user_of dev_session.0) (cookie_of dev_session.0) 64000 refl refl dev_body refl
