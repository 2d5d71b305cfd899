-- ===== src/Tests/Sessions.antt =====
-- The theorems on sessions, at concrete tokens and stores.
use bartleby.Prelude.{◌≢◌, String, false, ◌≡◌, refl, Option, none, some, [], ◌∷◌, arith, eq_iff}
use Prim.Native.String
use bartleby.Json.{Json, str, obj, property, no_properties}
use bartleby.Auth.Store
use bartleby.Auth.Store.{
  Store, User, Platform, RefreshToken, revoke_refresh_token, create_refresh_token,
}
use bartleby.Auth.Store.Users.{upsert_user_by_email_again}
use bartleby.Auth.Store.{upsert_user_by_email, get_user_by_id}
use bartleby.Auth.Session.{SessionConfig, IssueSessionInput, issue_session_jwt, verify_session_jwt}
use bartleby.Auth.Session.Token.{verify-issue, claims_of}
use bartleby.Auth.Gate.{admitted, require_session, on_authenticate}
use bartleby.Auth.Gate.Sound.{
  IsGenuine, IsPresented, IsSent, require_session-IsGenuine, on_authenticate-IsGenuine,
}
use bartleby.Auth.Device.{Reply, granted, denied, unauthenticated, TokenPair, token_refresh}
use bartleby.Auth.Device.Rotation.{IsRotated, token_refresh-IsRotated, token_refresh_once}
use bartleby.Auth.Device.Logout.{require_session-logout}
use bartleby.Auth.Device.Flow.{Flows, device_flow}
use bartleby.Tests.Codec.{plain_jose}

abbrev cfg : SessionConfig
cfg = record { secret_key = "k"; secure_cookies = false }

abbrev alice : User
alice = record {
  id = "u-1";
  email = "alice@example.com";
  display_name = "Alice";
  color = "#e6194b";
  created_at = 0;
}

abbrev input : IssueSessionInput
input = record {
  user_id = "u-1";
  email = "alice@example.com";
  display_name = "Alice";
  color = "#e6194b";
  jti = "j-1";
  ttl_seconds = some 60;
}

abbrev refresh_row : RefreshToken
refresh_row = record { token = "r-1"; user_id = "u-1"; expires_at = 9000; revoked_at = none }

abbrev store : Store
store = record Store.empty {
  users_by_email = ("alice@example.com", alice) ∷ [];
  users_by_id = ("u-1", alice) ∷ [];
  refresh_tokens = ("r-1", refresh_row) ∷ [];
}

verify-issue_example :
    verify_session_jwt plain_jose cfg (issue_session_jwt plain_jose cfg input 5000) 64000
    ≡ some (claims_of input)
verify-issue_example = verify-issue plain_jose cfg input 5000 64000

abbrev token : String
token = issue_session_jwt plain_jose cfg input 5000

require_session-IsGenuine_example :
    (t : String) × IsPresented none (some (String.◌++◌ "Bearer " token)) t
    × IsGenuine plain_jose cfg store 6000 t alice (claims_of input)
unfolding require_session bartleby.Auth.Gate.extract_bearer_token issue_session_jwt plain_jose
    bartleby.Text.trim bartleby.Auth.Gate.check_token verify_session_jwt Store.is_jti_revoked
    Store.get_user_by_id bartleby.Auth.Map.get
require_session-IsGenuine_example =
    require_session-IsGenuine plain_jose cfg store 6000 none (some (String.◌++◌ "Bearer " token))
      alice (claims_of input) refl

abbrev platform : Platform
platform = record { to_lower_case = λ s. s; first_byte = λ s. 0 }

on_authenticate-IsGenuine_example :
    (t : String) × IsSent platform token none t
    × IsGenuine plain_jose cfg store 6000 t alice (claims_of input)
unfolding on_authenticate bartleby.Auth.Gate.message_token bartleby.Text.trim issue_session_jwt
    plain_jose bartleby.Auth.Gate.check_token verify_session_jwt Store.is_jti_revoked
    Store.get_user_by_id bartleby.Auth.Map.get
on_authenticate-IsGenuine_example =
    on_authenticate-IsGenuine plain_jose cfg store 6000 platform token none alice (claims_of input)
      refl

abbrev body : Option Json
body = some (obj (property "refresh_token" (str "r-1") no_properties))

abbrev refreshed : Reply TokenPair × Store
refreshed = token_refresh plain_jose cfg "j-2" "r-2" 6000 store body

abbrev pair : TokenPair
pair = record {
  access_token =
      issue_session_jwt plain_jose cfg (record input { jti = "j-2"; ttl_seconds = some 900 }) 6000;
  refresh_token = "r-2";
}

token_refresh-IsRotated_example : IsRotated "r-1" "r-2" 6000 store refreshed.1
unfolding token_refresh Store.get_refresh_token bartleby.Auth.Map.get Store.get_user_by_id
    bartleby.Auth.Device.issue_device_token_pair
token_refresh-IsRotated_example =
    token_refresh-IsRotated plain_jose cfg "j-2" "r-2" 6000 store refreshed.1 body "r-1" pair refl
      refl

token_refresh_once_example :
    token_refresh plain_jose cfg "j-3" "r-3" 7000 refreshed.1 body
    ≡ (denied unauthenticated, refreshed.1)
unfolding token_refresh Store.get_refresh_token bartleby.Auth.Map.get Store.get_user_by_id
    bartleby.Auth.Device.issue_device_token_pair
token_refresh_once_example =
    token_refresh_once plain_jose cfg "j-2" "r-2" "j-3" "r-3" 6000 7000 store refreshed.1 body body
      "r-1" pair refl refl (λ e. ground (arith, (eq_iff "r-1" "r-2").1 e)) refl

device_flow_example :
    Flows "d-1" "USER-CODE" "/auth/device" 0 store plain_jose cfg
      (λ s. "USER-CODE")
      " user-code"
      alice
      (some (obj (property "device_code" (str "d-1") no_properties)))
      "j-4"
      "r-4"
unfolding bartleby.Auth.Device.string_field Store.get_user_by_id bartleby.Auth.Map.get
device_flow_example =
    device_flow "d-1" "USER-CODE" "/auth/device" 0 store plain_jose cfg (λ s. "USER-CODE")
      " user-code" alice (some (obj (property "device_code" (str "d-1") no_properties))) "j-4" "r-4"
      refl refl refl refl

abbrev bob : User
bob = record {
  id = "u-2";
  email = "bob@example.com";
  display_name = "Bob";
  color = "#e6194b";
  created_at = 1;
}

abbrev with_bob : Store
with_bob = record store {
  users_by_email = ("alice@example.com", alice) ∷ ("bob@example.com", bob) ∷ [];
  users_by_id = ("u-1", alice) ∷ ("u-2", bob) ∷ [];
}

upsert_user_by_email_again_example :
    (s'' : Store) × (upsert_user_by_email platform "bob@example.com" "Robert" "u-3" 2 with_bob
      ≡ some (record bob { display_name = "Robert" }, s''))
    × (get_user_by_id "u-2" s'' ≡ some (record bob { display_name = "Robert" }))
unfolding upsert_user_by_email bartleby.Auth.Map.get bartleby.Text.trim bartleby.Auth.Map.set
upsert_user_by_email_again_example =
    upsert_user_by_email_again platform " bob@example.com" "Bob" "u-2" "bob@example.com" "Robert"
      "u-3" 1 2 bob store with_bob refl refl

abbrev other_input : IssueSessionInput
other_input = record input { jti = "j-9" }

abbrev other_token : String
other_token = issue_session_jwt plain_jose cfg other_input 5000

abbrev session_cookie : Option String
session_cookie = some (String.◌++◌ "bartleby_session=" token)

require_session-logout_example : (claims_of other_input).jti ≢ (claims_of input).jti
unfolding require_session bartleby.Auth.Gate.extract_bearer_token issue_session_jwt plain_jose
    bartleby.Text.trim bartleby.Auth.Gate.check_token verify_session_jwt Store.is_jti_revoked
    Store.get_user_by_id bartleby.Auth.Map.get bartleby.Auth.Device.logout
    bartleby.Auth.Session.parse_cookies bartleby.Auth.Map.set Store.revoke_jti
require_session-logout_example =
    require_session-logout plain_jose cfg session_cookie token (claims_of input) 6000 store none
      (some (String.◌++◌ "Bearer " other_token)) 7000 alice (claims_of other_input) refl refl refl
      refl
