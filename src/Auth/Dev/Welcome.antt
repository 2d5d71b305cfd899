-- ===== src/Auth/Dev/Welcome.antt =====
-- Proofs about the sign-in for tests (server/src/auth/dev-routes.ts): what its session is good for.
use bartleby.Prelude.{
  ℕ, String, ◌≡◌, refl, sym, ap, or_else, false, true, Option, none, some, Option-cases, inl, inr,
  ltb, ◌+◌,
}
use bartleby.Json.{Json, null, obj, arr, str, bool, number}
use bartleby.Http.{ok, err, Result}
use bartleby.Notes.{ensure_user_exists}
use bartleby.Db.{Db}
use bartleby.Auth.Store.{
  Platform, Store, User, upsert_user_by_email, is_jti_revoked, get_user_by_id,
}
use bartleby.Auth.Store.Users.{get_user_by_id-upsert_user_by_email}
use bartleby.Auth.Session.{
  Jose, SessionConfig, issue_session_jwt, seconds, session_ttl_seconds, split,
}
use bartleby.Auth.Session.Token.{verify-issue, claims_of}
use bartleby.Auth.Gate.{admitted, check_token}
use bartleby.Auth.Google.{State, serialize_session_cookie, session_user}
use bartleby.Auth.Dev.{
  signed_in, dev_sign_in, sign_in_as, sign_in_user, bridged, input_for, text_field, first_part,
}

module _ (platform : Platform) (jose : Jose) (cfg : SessionConfig) (id jti : String) (now : ℕ) where
  -- A cookie whose token the gate lets in as this user.
  abbrev pub IsWelcome : User → String → State → ℕ → Type 0
  IsWelcome user cookie s later =
      (token : String) × (cookie ≡ serialize_session_cookie token cfg.secure_cookies)
      × (check_token jose cfg s.0 later token ≡ admitted user (claims_of (input_for user jti)))

  module _ (s s' : State) (user : User) (cookie : String) (later : ℕ)
      (fresh : ltb (seconds later) (seconds now + session_ttl_seconds) ≡ true)
      (live : is_jti_revoked jti s'.0 ≡ false) where
    IsWelcome-known :
        get_user_by_id user.id s'.0 ≡ some user
        → cookie
          ≡ serialize_session_cookie
              (issue_session_jwt jose cfg (input_for user jti) now)
              cfg.secure_cookies
        → IsWelcome user cookie s' later
    unfolding check_token
    IsWelcome-known known same = (
      issue_session_jwt jose cfg (input_for user jti) now,
      same,
      rw (verify-issue jose cfg (input_for user jti) now later, fresh, live, known) refl,
    )

    bridged-IsWelcome :
        (u : User) (store : Store) (out : Result String × Db)
        → get_user_by_id u.id store ≡ some u
        → bridged platform jose cfg id jti now u store out ≡ (signed_in user cookie, s')
        → IsWelcome user cookie s' later
    unfolding bridged
    bridged-IsWelcome u store (err problem, db) known e = cc
    bridged-IsWelcome u store (ok user_id, db) known e =
        let same_user : u ≡ user = cc in
        let same_store : store ≡ s'.0 = ap (λ o. o.1.0) e in
        let made =
          serialize_session_cookie (issue_session_jwt jose cfg (input_for u jti) now)
            cfg.secure_cookies in
        let same_cookie : made ≡ cookie = cc in
        IsWelcome-known (rw (same_user, same_store) at known) (sym (rw same_user at same_cookie))

    sign_in_as-IsWelcome :
        (email name : Option String)
        → sign_in_as platform jose cfg id jti now email name s ≡ (signed_in user cookie, s')
        → IsWelcome user cookie s' later
    unfolding sign_in_as sign_in_user
    sign_in_as-IsWelcome none name e = cc
    sign_in_as-IsWelcome (some email) name e =
        let chosen = or_else name (first_part (split b'@' email)) in
        elim (Option-cases (upsert_user_by_email platform email chosen id now s.0)) [
          | inl throws ↦ cc (rw throws at e)
          | inr ((u, store), added) ↦
              bridged-IsWelcome u store (ensure_user_exists (session_user u) s.1)
                (get_user_by_id-upsert_user_by_email platform email chosen id now u s.0 store added)
                (rw added at e)
        ]

    -- A sign-in for tests that succeeds sets a session cookie with a token that the gate lets in as
    -- the user of the answer, with the claims of that user, at any time at which fewer whole
    -- seconds than seven days have passed, as long as the new session is not among the revoked
    -- ones.
    pub dev_sign_in-IsWelcome :
        (body : Option Json)
        → dev_sign_in platform jose cfg id jti now body s ≡ (signed_in user cookie, s')
        → IsWelcome user cookie s' later
    unfolding dev_sign_in text_field
    dev_sign_in-IsWelcome none e = cc
    dev_sign_in-IsWelcome (some null) e = cc
    dev_sign_in-IsWelcome (some (obj ps)) e =
        sign_in_as-IsWelcome (text_field "email" (obj ps)) (text_field "displayName" (obj ps)) e
    dev_sign_in-IsWelcome (some (arr vs)) e = sign_in_as-IsWelcome none none e
    dev_sign_in-IsWelcome (some (str t)) e = sign_in_as-IsWelcome none none e
    dev_sign_in-IsWelcome (some (bool b)) e = sign_in_as-IsWelcome none none e
    dev_sign_in-IsWelcome (some (number n)) e = sign_in_as-IsWelcome none none e
