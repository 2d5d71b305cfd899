-- ===== src/Auth/Device/Flow.antt =====
-- Proofs about the device-code flow of server/src/auth/routes.ts, from start to tokens.
use bartleby.Prelude.{
  ℕ, ◌+◌, ◌*◌, ◌<◌, ◌≤◌, String, false, ltb, if◌then◌else◌, ◌≡◌, refl, Option, none, some, arith,
  eq_self,
}
use bartleby.Text.{trim, is_empty}
use bartleby.Json.{Json}
use bartleby.Auth.Map.{set, get-set}
use bartleby.Auth.Store.{
  Store, User, DeviceAuthorization, get_user_by_id, create_device_authorization,
  get_device_authorization_by_code, get_refresh_token, create_refresh_token,
  approve_device_authorization,
}
use bartleby.Auth.Session.{
  Jose, SessionConfig, SessionClaims, IssueSessionInput, seconds, access_token_ttl_seconds,
  issue_session_jwt, verify_session_jwt,
}
use bartleby.Auth.Session.Token.{verify-issue}
use bartleby.Auth.Device.{
  Reply, TokenPair, granted, denied, authorization_pending, expired, string_field, device_start,
  device_approve, device_poll, poll_row, approve_code, issue_device_token_pair,
  device_code_expires_in_seconds,
}

abbrev pub started : String → String → String → ℕ → Store → Store
started device_code user_code uri now s = (device_start device_code user_code uri now s).1

abbrev deadline : ℕ → ℕ
deadline now = now + device_code_expires_in_seconds * 1000

-- The claims of a user's session.
abbrev pub session_of : User → String → SessionClaims
session_of user jti = record {
  sub = user.id;
  jti = jti;
  email = user.email;
  display_name = user.display_name;
  color = user.color;
}

-- An answer that grants a user tokens: the access token verifies to that user's claims for fifteen
-- minutes, and the refresh token is stored for that user, for 30 days and not revoked.
pub record IsGranted (jose : Jose) (cfg : SessionConfig) (user : User) (jti token : String)
    (now : ℕ) (out : Reply TokenPair × Store) : Type 0 where
  pub access : String
  pub reply : out.0 ≡ granted (record { access_token = access; refresh_token = token })
  pub accepted :
      (later : ℕ)
      → verify_session_jwt jose cfg access later
        ≡ (if ltb (seconds later) (seconds now + 15 * 60) then some (session_of user jti) else none)
  pub stored :
      get_refresh_token token out.1
      ≡ some (record {
        token = token;
        user_id = user.id;
        expires_at = now + 30 * 24 * 60 * 60 * 1000;
        revoked_at = none;
      })

issue-IsGranted :
    (jose : Jose) (cfg : SessionConfig) (user : User) (jti token : String) (now : ℕ) (s : Store)
    → IsGranted jose cfg user jti token now (issue_device_token_pair jose cfg user jti token now s)
unfolding issue_device_token_pair get_refresh_token create_refresh_token
issue-IsGranted jose cfg user jti token now s =
    let input : IssueSessionInput = record {
      user_id = user.id;
      email = user.email;
      display_name = user.display_name;
      color = user.color;
      jti = jti;
      ttl_seconds = some access_token_ttl_seconds;
    } in
    record {
      access = issue_session_jwt jose cfg input now;
      reply = refl;
      accepted = λ later. verify-issue jose cfg input now later;
      stored = rw (get-set token token, eq_self token) refl;
    }

module _ (device_code user_code uri : String) (start : ℕ) (s : Store) where
  abbrev pub row : Option String → DeviceAuthorization
  row user = record {
    device_code = device_code;
    user_code = user_code;
    verification_uri = uri;
    interval_seconds = 5;
    expires_at = deadline start;
    approved_user_id = user;
  }

  row_at_start :
      get_device_authorization_by_code device_code (started device_code user_code uri start s)
      ≡ some (row none)
  unfolding device_start create_device_authorization get_device_authorization_by_code
  row_at_start = rw (get-set device_code device_code, eq_self device_code)

  pub approved_store : String → Store
  approved_store user_id =
      let s1 = started device_code user_code uri start s in
      record s1 {
        devices_by_device_code = set device_code (row (some user_id)) s1.devices_by_device_code;
        devices_by_user_code = set user_code (row (some user_id)) s1.devices_by_user_code;
      }

  approve_at_start :
      (user_id : String)
      → approve_device_authorization user_code user_id (started device_code user_code uri start s)
        ≡ some (row (some user_id), approved_store user_id)
  unfolding device_start create_device_authorization approve_device_authorization approved_store
  approve_at_start user_id = rw (get-set user_code user_code, eq_self user_code)

  row_approved :
      (user_id : String)
      → get_device_authorization_by_code device_code (approved_store user_id)
        ≡ some (row (some user_id))
  unfolding approved_store get_device_authorization_by_code
  row_approved user_id = rw (get-set device_code device_code, eq_self device_code)

  users_stay : (user_id j : String) → get_user_by_id j (approved_store user_id) ≡ get_user_by_id j s
  unfolding approved_store get_user_by_id device_start create_device_authorization
  users_stay user_id j = refl

  -- A code that was started can be polled and approved. Until it is approved a poll says that it is
  -- pending; once a user has approved it by its user code, in any case and with spaces round it, a
  -- poll grants tokens to that user; from ten minutes after the start on a poll says that it has
  -- expired, approved or not.
  pub record Flows (jose : Jose) (cfg : SessionConfig) (to_upper_case : String → String)
      (typed : String) (user : User) (body : Option Json) (jti token : String) : Type 0 where
    pub pending :
        (now : ℕ)
        → now < deadline start
        → device_poll jose cfg jti token now (started device_code user_code uri start s) body
          ≡ (denied authorization_pending, started device_code user_code uri start s)
    pub approval :
        device_approve to_upper_case user.id
          (some typed)
          (started device_code user_code uri start s)
        ≡ (granted tt, approved_store user.id)
    pub grant :
        (now : ℕ)
        → now < deadline start
        → IsGranted jose cfg user jti token now
            (device_poll jose cfg jti token now (approved_store user.id) body)
    pub late :
        (now : ℕ)
        → deadline start ≤ now
        → (device_poll jose cfg jti token now (started device_code user_code uri start s) body
            ≡ (denied expired, started device_code user_code uri start s))
          × (device_poll jose cfg jti token now (approved_store user.id) body
              ≡ (denied expired, approved_store user.id))

  -- A device code that was started is pending until it is approved by its user code, typed in any
  -- form that upper-casing and trimming make equal; once a user that exists has approved it a poll
  -- grants tokens: the access token verifies to that user's claims as long as fewer than fifteen
  -- minutes of whole seconds have passed and not later, and the refresh token is stored for that
  -- user for 30 days; and from ten minutes after the start on a poll says that it has expired,
  -- approved or not.
  pub device_flow :
      (jose : Jose) (cfg : SessionConfig) (to_upper_case : String → String) (typed : String)
      (user : User) (body : Option Json) (jti token : String)
      → is_empty typed ≡ false
      → to_upper_case (trim typed) ≡ user_code
      → string_field body "device_code" ≡ some device_code
      → get_user_by_id user.id s ≡ some user
      → Flows jose cfg to_upper_case typed user body jti token
  unfolding device_poll device_approve poll_row
  device_flow jose cfg to_upper_case typed user body jti token given same polled known = record {
    pending = λ now h. rw (polled, device_poll, row_at_start) ground arith;
    approval = rw (given, device_approve, approve_code, same, approve_at_start user.id);
    grant = λ now h.
        let polls : device_poll jose cfg jti token now (approved_store user.id) body
            ≡ issue_device_token_pair jose cfg user jti token now (approved_store user.id) =
          rw (polled, device_poll, row_approved user.id, users_stay user.id user.id, known) ground
            arith in
        rw polls (issue-IsGranted jose cfg user jti token now (approved_store user.id));
    late = λ now h. (
      rw (polled, device_poll, row_at_start) ground arith,
      rw (polled, device_poll, row_approved user.id) ground arith,
    );
  }
