-- ===== src/Auth/Gate/Sound.antt =====
-- Proofs about the two gates (server/src/auth/middleware.ts, server/src/auth/hocuspocus.ts).
use Prim.Native.String
use text.Mathlib.Text.{starts_with}
use text.Mathlib.TextEquality.{starts_with_iff}
use text.Mathlib.TextLemmas.{nil-append, cons-append}
use bartleby.Prelude.{
  ℕ, String, true, false, ◌≡◌, refl, sym, ap, ◌∙◌, ◌⊎◌, contains, Option, none, some, Bool-cases,
  Option-cases, inl, inr,
}
use bartleby.Text.{trim, is_empty}
use bartleby.Auth.Map.{get}
use bartleby.Auth.Store.{Store, User, Platform, get_user_by_id, is_jti_revoked}
use bartleby.Auth.Session.{
  Jose, SessionConfig, SessionClaims, Payload, seconds, issuer, audience, session_cookie_name,
  parse_cookies, verify_session_jwt, ◌>>=◌,
}
use bartleby.Auth.Gate.{
  admitted, check_token, check_claims, check_user, check_chosen, choose_token, non_empty,
  drop_chars, extract_bearer_token, require_session, message_token, verify_cookie, on_authenticate,
}

-- The payload has the claims.
abbrev pub Carries : Payload → SessionClaims → Type 0
Carries payload claims =
    (payload.sub ≡ some claims.sub)
    × (payload.jti ≡ some claims.jti)
    × (payload.email ≡ some claims.email)
    × (payload.display_name ≡ some claims.display_name)
    × (payload.color ≡ some claims.color)

-- What a token must be for its bearer to be admitted: the library accepts it at that time, under the
-- server's key, issuer and audience, with the claims, whose id is not among the revoked ones.
pub record IsGenuine (jose : Jose) (cfg : SessionConfig) (s : Store) (now : ℕ) (token : String)
    (user : User) (claims : SessionClaims) : Type 0 where
  pub payload : Payload
  pub verified : jose.verify cfg.secret_key issuer audience (seconds now) token ≡ some payload
  pub carried : Carries payload claims
  pub current : contains claims.jti s.revoked_jtis ≡ false
  pub known : get claims.sub s.users_by_id ≡ some user

-- The token of the header `authorization`.
abbrev pub IsBearer : Option String → String → Type 0
IsBearer authorization token =
    (rest : String) × (authorization ≡ some (String.◌++◌ "Bearer " rest)) × (token ≡ trim rest)

-- The token of the session's cookie.
abbrev pub IsCookie : Option String → String → Type 0
IsCookie cookie token = get session_cookie_name (parse_cookies cookie) ≡ some token

-- The token that a request comes with: the bearer token if it has one, else the cookie.
abbrev pub IsPresented : Option String → Option String → String → Type 0
IsPresented cookie authorization token =
    IsBearer authorization token
    ⊎ ((extract_bearer_token authorization ≡ none) × IsCookie cookie token)

-- The token that a connection comes with: the one of its message if it has one, else the cookie.
abbrev pub IsSent : Platform → String → Option String → String → Type 0
IsSent platform message cookie token =
    ((is_empty (message_token platform message) ≡ false) × (token ≡ message_token platform message))
    ⊎ ((is_empty (message_token platform message) ≡ true) × IsCookie cookie token)

then_some :
    {A B : Type 0} (jose : Jose) (cfg : SessionConfig) (o : Option A) (f : A → Option B) (b : B)
    → ◌>>=◌ jose cfg o f ≡ some b
    → (a : A) × (o ≡ some a) × (f a ≡ some b)
then_some jose cfg none f b e = cc
then_some jose cfg (some a) f b e = (a, refl, e)

drop_chars-append : (p s : String) → drop_chars p (String.◌++◌ p s) ≡ s
unfolding drop_chars
drop_chars-append String.[] s = nil-append s
drop_chars-append (String.◌∷◌ c p) s =
    ap (drop_chars (String.◌∷◌ c p)) (cons-append c p s) ∙ drop_chars-append p s

given_token : (s t : String) → non_empty s ≡ some t → t ≡ s
given_token s t e = elim (Bool-cases (is_empty s)) [
  | inl empty ↦ cc (rw empty at e)
  | inr given ↦ cc (rw given at e)
]

cookie_chosen :
    (o : Option String) (token : String) → choose_token none o ≡ some token → o ≡ some token
unfolding choose_token
cookie_chosen none token e = cc
cookie_chosen (some t) token e = ap some (sym (given_token t token e))

extract_bearer_token-IsBearer :
    (authorization : Option String) (token : String)
    → extract_bearer_token authorization ≡ some token
    → IsBearer authorization token
unfolding extract_bearer_token
extract_bearer_token-IsBearer none token e = cc
extract_bearer_token-IsBearer (some header) token e =
    elim (Bool-cases (starts_with header "Bearer ")) [
      | inl hit ↦
          let (rest, same) = (starts_with_iff header "Bearer ").0 hit in
          let dropped : drop_chars "Bearer " header ≡ rest =
            ap (drop_chars "Bearer ") (sym same) ∙ drop_chars-append "Bearer " rest in
          (
            rest,
            ap some (sym same),
            given_token (trim (drop_chars "Bearer " header)) token (rw hit at e) ∙ ap trim dropped,
          )
      | inr miss ↦ cc (rw miss at e)
    ]

module _ (jose : Jose) (cfg : SessionConfig) (s : Store) (now : ℕ) where
  -- What a token that verifies carries.
  verified_payload :
      (token : String) (claims : SessionClaims)
      → verify_session_jwt jose cfg token now ≡ some claims
      → (payload : Payload) × (jose.verify cfg.secret_key issuer audience (seconds now) token
          ≡ some payload)
        × Carries payload claims
  unfolding verify_session_jwt
  verified_payload token claims e =
      let (payload, fine, e1) = then_some jose cfg _ _ claims e in
      let (sub, has_sub, e2) = then_some jose cfg _ _ claims e1 in
      let (jti, has_jti, e3) = then_some jose cfg _ _ claims e2 in
      let (email, has_email, e4) = then_some jose cfg _ _ claims e3 in
      let (display_name, has_name, e5) = then_some jose cfg _ _ claims e4 in
      let (color, has_color, e6) = then_some jose cfg _ _ claims e5 in
      (
        payload,
        fine,
        (
          has_sub ∙ ap (λ o. elim o [ none ↦ none | some c ↦ some c.sub ]) e6,
          has_jti ∙ ap (λ o. elim o [ none ↦ none | some c ↦ some c.jti ]) e6,
          has_email ∙ ap (λ o. elim o [ none ↦ none | some c ↦ some c.email ]) e6,
          has_name ∙ ap (λ o. elim o [ none ↦ none | some c ↦ some c.display_name ]) e6,
          has_color ∙ ap (λ o. elim o [ none ↦ none | some c ↦ some c.color ]) e6,
        ),
      )

  check_token-IsGenuine :
      (token : String) (user : User) (claims : SessionClaims)
      → check_token jose cfg s now token ≡ admitted user claims
      → IsGenuine jose cfg s now token user claims
  unfolding check_token check_claims check_user is_jti_revoked get_user_by_id
  check_token-IsGenuine token user claims e =
      elim (Option-cases (verify_session_jwt jose cfg token now)) [
        | inl bad ↦ cc (rw bad at e)
        | inr (c, fine) ↦ elim (Bool-cases (contains c.jti s.revoked_jtis)) [
          | inl out ↦ cc (rw (fine, out) at e)
          | inr still ↦ elim (Option-cases (get c.sub s.users_by_id)) [
            | inl nobody ↦ cc (rw (fine, still, nobody) at e)
            | inr (u, known) ↦
                let same = rw (fine, still, known) at e in
                let same_user : u ≡ user = cc in
                let same_claims : c ≡ claims = cc in
                let (payload, verified, carried) = verified_payload token c fine in
                record {
                  payload = payload;
                  verified = verified;
                  carried = rw (← same_claims) carried;
                  current = rw (← same_claims) still;
                  known = rw (← same_claims, ← same_user) known;
                }
          ]
        ]
      ]

  -- The outcome for a chosen token is the one for a token.
  check_chosen-IsGenuine :
      (chosen : Option String) (user : User) (claims : SessionClaims)
      → check_chosen jose cfg s now chosen ≡ admitted user claims
      → (token : String) × (chosen ≡ some token) × IsGenuine jose cfg s now token user claims
  unfolding check_chosen
  check_chosen-IsGenuine none user claims e = cc
  check_chosen-IsGenuine (some token) user claims e =
      (token, refl, check_token-IsGenuine token user claims e)

  -- A request that passes the session gate came with a token, the one behind `Bearer ` in its
  -- authorization header or, where that gives none, the one of its session cookie, and the token
  -- library accepts that token at that time under the server's key, issuer and audience, with the
  -- claims that the handler gets; their id is not among the revoked ones, and the handler's user is
  -- the stored user that the claims name.
  pub require_session-IsGenuine :
      (cookie authorization : Option String) (user : User) (claims : SessionClaims)
      → require_session jose cfg s now cookie authorization ≡ admitted user claims
      → (token : String) × IsPresented cookie authorization token
        × IsGenuine jose cfg s now token user claims
  unfolding require_session choose_token
  require_session-IsGenuine cookie authorization user claims e =
      let (token, chosen, genuine) = check_chosen-IsGenuine _ user claims e in
      (
        token,
        elim (Option-cases (extract_bearer_token authorization)) [
          | inr (bearer, has_bearer) ↦
              let same : bearer ≡ token = cc (rw has_bearer at chosen) in
              inl (extract_bearer_token-IsBearer authorization token (rw same at has_bearer))
          | inl no_bearer ↦ inr (no_bearer, cookie_chosen _ token (rw no_bearer at chosen))
        ],
        genuine,
      )

  -- A WebSocket connection that is let in came with a token, the one of its Auth message or, where
  -- that is empty, the one of its session cookie, and the token library accepts that token at that
  -- time under the server's key, issuer and audience, with the claims of the connection; their id
  -- is not among the revoked ones, and the connection's user is the stored user that the claims
  -- name.
  pub on_authenticate-IsGenuine :
      (platform : Platform) (message : String) (cookie : Option String) (user : User)
      (claims : SessionClaims)
      → on_authenticate jose cfg s now platform message cookie ≡ admitted user claims
      → (token : String) × IsSent platform message cookie token
        × IsGenuine jose cfg s now token user claims
  unfolding on_authenticate verify_cookie
  on_authenticate-IsGenuine platform message cookie user claims e =
      elim (Bool-cases (is_empty (message_token platform message))) [
        | inl empty ↦
            let (token, chosen, genuine) = check_chosen-IsGenuine _ user claims (rw empty at e) in
            (token, inr (empty, cookie_chosen _ token chosen), genuine)
        | inr given ↦ (
          message_token platform message,
          inl (given, refl),
          check_token-IsGenuine _ user claims (rw given at e),
        )
      ]
