-- ===== src/Auth/Session.antt =====
-- The session token and its cookie (server/src/auth/session.ts). The library that signs and
-- verifies tokens is a parameter; a time is in milliseconds, and a token's times are in seconds.
pub mod Token
use Prim.Native.Char.{Char, code}
use Prim.Native.Nat.{◌/◌}
use Prim.Native.String
use bartleby.Prelude.{
  ℕ, String, Bool, true, false, ◌≡◌, ◌+◌, ◌*◌, ◌==◌, ◌&&◌, Option, none, some, List, [], ◌∷◌, ltb,
  nat_eq, or_else, if◌then◌else◌,
}
use bartleby.Text.{trim, is_empty}
use bartleby.Auth.Map.{Map, set}

abbrev pub session_ttl_seconds : ℕ
session_ttl_seconds = 7 * 24 * 60 * 60

abbrev pub access_token_ttl_seconds : ℕ
access_token_ttl_seconds = 15 * 60

abbrev pub refresh_token_ttl_seconds : ℕ
refresh_token_ttl_seconds = 30 * 24 * 60 * 60

abbrev pub session_cookie_name : String
session_cookie_name = "bartleby_session"

abbrev pub issuer : String
issuer = "bartleby"

abbrev pub audience : String
audience = "bartleby-web"

-- A claim of a verified token need not be there.
pub record Payload : Type 0 where
  pub iss : String
  pub aud : String
  pub sub : Option String
  pub jti : Option String
  pub email : Option String
  pub display_name : Option String
  pub color : Option String
  pub iat : ℕ
  pub exp : ℕ

-- jose: what `jwtVerify` accepts of what `SignJWT` signed with the same key.
pub record Jose : Type 0 where
  pub sign : String → Payload → String
  pub verify : String → String → String → ℕ → String → Option Payload
  pub verify-sign :
      (key iss aud : String) (now : ℕ) (p : Payload)
      → verify key iss aud now (sign key p)
        ≡ (if p.iss == iss && p.aud == aud && ltb now p.exp then some p else none)

pub record SessionClaims : Type 0 where
  pub sub : String
  pub jti : String
  pub email : String
  pub display_name : String
  pub color : String

pub record IssueSessionInput : Type 0 where
  pub user_id : String
  pub email : String
  pub display_name : String
  pub color : String
  pub jti : String
  pub ttl_seconds : Option ℕ

pub record SessionConfig : Type 0 where
  pub secret_key : String
  pub secure_cookies : Bool

abbrev pub seconds : ℕ → ℕ
seconds ms = ms / 1000

module _ (jose : Jose) (cfg : SessionConfig) where
  unfoldable pub issue_session_jwt : IssueSessionInput → ℕ → String
  issue_session_jwt input now = jose.sign cfg.secret_key (record {
    iss = issuer;
    aud = audience;
    sub = some input.user_id;
    jti = some input.jti;
    email = some input.email;
    display_name = some input.display_name;
    color = some input.color;
    iat = seconds now;
    exp = seconds now + or_else input.ttl_seconds session_ttl_seconds;
  })

  infixl 5 ◌>>=◌
  abbrev pub ◌>>=◌ : {A B : Type 0} → Option A → (A → Option B) → Option B
  none >>= f = none
  some a >>= f = f a

  -- `none` is a throw: a bad token, or a claim that is missing.
  unfoldable pub verify_session_jwt : String → ℕ → Option SessionClaims
  verify_session_jwt token now = do
    payload ← jose.verify cfg.secret_key issuer audience (seconds now) token
    sub ← payload.sub
    jti ← payload.jti
    email ← payload.email
    display_name ← payload.display_name
    color ← payload.color
    some
        (record { sub = sub; jti = jti; email = email; display_name = display_name; color = color })

-- `header.split(';')`, with the part that is being read.
abbrev push : String → Char → String
push s c = String.◌++◌ s (String.◌∷◌ c String.[])

split_from : ℕ → String → String → List String
split_from sep cur String.[] = cur ∷ []
split_from sep cur (String.◌∷◌ c s) =
    let closed = cur ∷ split_from sep "" s in
    let longer = split_from sep (push cur c) s in if nat_eq (code c) sep then closed else longer

unfoldable pub split : ℕ → String → List String
unfolding split_from
split sep s = split_from sep "" s

-- The two slices round the first `=`.
cut_from : String → String → Option (String × String)
cut_from key String.[] = none
cut_from key (String.◌∷◌ c s) =
    let later = cut_from (push key c) s in if nat_eq (code c) b'=' then some (key, s) else later

unfoldable pub cut : String → Option (String × String)
unfolding cut_from
cut s = cut_from "" s

add_cookie : Option (String × String) → Map String → Map String
add_cookie none out = out
add_cookie (some (k, v)) out = if is_empty (trim k) then out else set (trim k) (trim v) out

add_cookies : List String → Map String → Map String
unfolding add_cookie
add_cookies [] out = out
add_cookies (part ∷ parts) out = add_cookies parts (add_cookie (cut part) out)

unfoldable pub parse_cookies : Option String → Map String
unfolding add_cookies split cut
parse_cookies none = []
parse_cookies (some header) = if is_empty header then [] else add_cookies (split b';' header) []
