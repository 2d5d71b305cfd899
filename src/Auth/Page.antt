-- ===== src/Auth/Page.antt =====
-- The page on which a device is approved, and the code that is typed there
-- (server/src/auth/routes.ts). `byte` gives what `randomBytes(1)` returns each time.
pub mod Escape
use Prim.Native.Char.{Char, code}
use Prim.Native.String
use bartleby.Prelude.{
  ℕ, zero, suc, ◌%◌, ◌<◌, String, Bool, Option, none, some, nat_eq, or_else, if◌then◌else◌,
}
use bartleby.Text.{is_empty, take_text, drop_text}
use bartleby.Auth.Map.{get}
use bartleby.Auth.Store.{Store}
use bartleby.Auth.Session.{Jose, SessionConfig, session_cookie_name, parse_cookies}
use bartleby.Auth.Gate.{Outcome, admitted, refused, check_token}

abbrev pub alphabet : String
alphabet = "ABCDEFGHJKLMNPQRSTUVWXYZ23456789"

-- `alphabet[idx]`
abbrev pub char_at : ℕ → String
char_at i = take_text 1 (drop_text i alphabet)

abbrev pub letters : (ℕ → ℕ) → ℕ → String
letters byte zero = ""
letters byte (suc n) = String.◌++◌ (letters byte n) (char_at (byte n % 32))

unfoldable pub random_user_code : (ℕ → ℕ) → String
random_user_code byte =
    let out = letters byte 8 in String.◌++◌ (take_text 4 out) (String.◌++◌ "-" (drop_text 4 out))

abbrev pub entity : Char → String
entity c =
    if nat_eq (code c) b'&'
    then "&amp;"
    else if nat_eq (code c) b'<'
    then "&lt;"
    else if nat_eq (code c) b'>'
    then "&gt;"
    else if nat_eq (code c) 34
    then "&quot;"
    else if nat_eq (code c) 39
    then "&#39;"
    else String.◌∷◌ c ""

-- `userCode.replace(/[&<>"']/g, …)`
unfoldable pub escape_html : String → String
escape_html String.[] = String.[]
escape_html (String.◌∷◌ c s) = String.◌++◌ (entity c) (escape_html s)

-- The page, with the value of its field, or the way to the sign-in, with where to return to.
pub data Page : Type 0 where
  approve_form : String → Page
  to_sign_in : String → Page

abbrev page_for : String → Option String → Outcome → Page
unfolding escape_html
page_for return_to user_code (admitted user claims) =
    approve_form (escape_html (or_else user_code ""))
page_for return_to user_code (refused why) = to_sign_in return_to

module _ (jose : Jose) (cfg : SessionConfig) (s : Store) (now : ℕ) where
  page_with : String → Option String → Option String → Page
  unfolding page_for
  page_with return_to user_code none = to_sign_in return_to
  page_with return_to user_code (some token) =
      if is_empty token
      then to_sign_in return_to
      else page_for return_to user_code (check_token jose cfg s now token)

  -- GET /device, with the path and query of the request, its `user_code` and its cookies.
  unfoldable pub device_page : String → Option String → Option String → Page
  unfolding page_with parse_cookies
  device_page return_to user_code header =
      page_with return_to user_code (get session_cookie_name (parse_cookies header))
