-- ===== src/Auth/Google/Safe.antt =====
-- Proofs about sign-in with Google (server/src/auth/routes.ts).
use text.Mathlib.Text.{starts_with}
use bartleby.Prelude.{
  ℕ, String, true, false, not, ◌≡◌, ◌==◌, ◌||◌, refl, eq_iff, Option, none, some, arith, Bool-cases,
  Option-cases, inl, inr, List,
}
use bartleby.Auth.Map.{get}
use bartleby.Auth.Session.{parse_cookies}
use bartleby.Auth.Allowlist.{has}
use bartleby.Auth.Google.{
  Deps, GoogleUser, redirect, State, oauth_state_cookie, checked_path, safe_return_to, given,
  sign_in, user_info, check_state, with_state, with_code, google_callback, build_redirect_uri,
}
use bartleby.Text.{is_empty}

checked_path_local :
    (path : Option String)
    → (starts_with (checked_path path) "/" ≡ true) × (starts_with (checked_path path) "//" ≡ false)
unfolding checked_path
checked_path_local none = (refl, refl)
checked_path_local (some path) =
    elim (Bool-cases (not (starts_with path "/") || starts_with path "//")) [
      | inl outside ↦ rw outside (refl, refl)
      | inr local ↦ rw local (ground arith, ground arith)
    ]

-- The path that a sign-in returns to begins with a slash and not with two, whatever the cookie
-- holds and decodes to.
pub safe_return_to_local :
    (decode : String → Option String) (value : Option String)
    → (starts_with (safe_return_to decode value) "/" ≡ true)
      × (starts_with (safe_return_to decode value) "//" ≡ false)
unfolding safe_return_to
safe_return_to_local decode none = (refl, refl)
safe_return_to_local decode (some value) = elim (Bool-cases (is_empty value)) [
  | inl none_given ↦ rw none_given (refl, refl)
  | inr some_given ↦ rw some_given (checked_path_local (decode value))
]

-- Who ends up signed in.
pub record IsAllowed (deps : Deps) (code state header : Option String) : Type 0 where
  pub nonce : String
  pub sent : state ≡ some nonce
  pub stored : get oauth_state_cookie (parse_cookies header) ≡ some nonce
  pub exchanged : String
  pub given_code : code ≡ some exchanged
  pub access_token : String
  pub granted :
      deps.google.exchange_code exchanged (build_redirect_uri deps.public_base_url)
      ≡ some access_token
  pub user : GoogleUser
  pub known : deps.google.fetch_user_info access_token ≡ some user
  pub allowed : has deps.platform deps.allowlist user.email ≡ true

given-some : (o : Option String) (s : String) → given o ≡ some s → o ≡ some s
given-some none s e = cc
given-some (some t) s e = ground arith

module _ (deps : Deps) (header : Option String) (id jti : String) (now : ℕ) (s s' : State)
    (url : String) (set_cookies : List String) where
  sign_in_allowed :
      (info : Option GoogleUser)
      → sign_in deps (parse_cookies header) id jti now info s ≡ (redirect url set_cookies, s')
      → (user : GoogleUser) × (info ≡ some user)
        × (has deps.platform deps.allowlist user.email ≡ true)
  unfolding sign_in
  sign_in_allowed none e = cc
  sign_in_allowed (some user) e = elim (Bool-cases (has deps.platform deps.allowlist user.email)) [
    | inl on_it ↦ (user, refl, on_it)
    | inr not_on_it ↦ cc (rw not_on_it at e)
  ]

  user_info_token :
      (o : Option String) (user : GoogleUser)
      → user_info deps (parse_cookies header) id jti now o ≡ some user
      → (token : String) × (o ≡ some token) × (deps.google.fetch_user_info token ≡ some user)
  unfolding user_info
  user_info_token none user e = cc
  user_info_token (some token) user e = (token, refl, e)

  -- A Google callback that ends with a redirect had a code and a state, the state equal to the one
  -- in the request's cookie, Google gave a user for that code, and the e-mail of that user is on
  -- the allowlist.
  pub google_callback-IsAllowed :
      (code state : Option String)
      → google_callback deps code state header id jti now s ≡ (redirect url set_cookies, s')
      → IsAllowed deps code state header
  unfolding google_callback with_code with_state check_state
  google_callback-IsAllowed code state e = elim (Option-cases (given code)) [
    | inl no_code ↦ cc (rw no_code at e)
    | inr (exchanged, has_code) ↦ elim (Option-cases (given state)) [
      | inl no_state ↦ cc (rw (has_code, no_state) at e)
      | inr (nonce, has_state) ↦
          elim (Option-cases (get oauth_state_cookie (parse_cookies header))) [
            | inl no_cookie ↦ cc (rw (has_code, has_state, no_cookie) at e)
            | inr (cookie, has_cookie) ↦ elim (Bool-cases (cookie == nonce)) [
              | inr other ↦ cc (rw (has_code, has_state, has_cookie, other) at e)
              | inl same ↦
                  let (user, info, allowed) =
                    sign_in_allowed _ (rw (has_code, has_state, has_cookie, same) at e) in
                  let (token, granted, known) = user_info_token _ user info in
                  record {
                    nonce = nonce;
                    sent = given-some state nonce has_state;
                    stored = rw (← (eq_iff cookie nonce).0 same) has_cookie;
                    exchanged = exchanged;
                    given_code = given-some code exchanged has_code;
                    access_token = token;
                    granted = granted;
                    user = user;
                    known = known;
                    allowed = allowed;
                  }
            ]
          ]
    ]
  ]
