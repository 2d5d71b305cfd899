-- ===== src/Auth/Store.antt =====
-- The in-memory session store (server/src/auth/store.ts). The lower case of a text, the first byte
-- of its SHA-256 digest, new ids and the clock are arguments: they stand for the platform.
pub mod Users
pub mod Sqlite
use bartleby.Prelude.{
  ℕ, String, Bool, ◌%◌, Option, none, some, List, [], ◌∷◌, contains, is_none, if◌then◌else◌,
}
use bartleby.Text.{trim}
use bartleby.Auth.Map
use bartleby.Auth.Map.{Map}

pub record User : Type 0 where
  pub id : String
  pub email : String
  pub display_name : String
  pub color : String
  pub created_at : ℕ

pub record DeviceAuthorization : Type 0 where
  pub device_code : String
  pub user_code : String
  pub verification_uri : String
  pub interval_seconds : ℕ
  pub expires_at : ℕ
  pub approved_user_id : Option String

pub record RefreshToken : Type 0 where
  pub token : String
  pub user_id : String
  pub expires_at : ℕ
  pub revoked_at : Option ℕ

pub record Store : Type 0 where
  pub users_by_email : Map User
  pub users_by_id : Map User
  pub revoked_jtis : List String
  pub devices_by_device_code : Map DeviceAuthorization
  pub devices_by_user_code : Map DeviceAuthorization
  pub refresh_tokens : Map RefreshToken

abbrev pub empty : Store
empty = record {
  users_by_email = [];
  users_by_id = [];
  revoked_jtis = [];
  devices_by_device_code = [];
  devices_by_user_code = [];
  refresh_tokens = [];
}

abbrev presence_palette : List String
presence_palette =
    "#e6194b" ∷ "#3cb44b" ∷ "#4363d8" ∷ "#f58231" ∷ "#911eb4" ∷ "#46f0f0" ∷ "#f032e6" ∷ "#9a6324"
    ∷ "#800000" ∷ "#808000" ∷ "#000075" ∷ "#469990" ∷ []

abbrev get_elem? : List String → ℕ → Option String
get_elem? [] i = none
get_elem? (x ∷ xs) ℕ.zero = some x
get_elem? (x ∷ xs) (ℕ.suc i) = get_elem? xs i

-- The platform: `toLowerCase`, and the first byte of the SHA-256 digest.
pub record Platform : Type 0 where
  pub to_lower_case : String → String
  pub first_byte : String → ℕ

module _ (platform : Platform) where
  -- `none` is the branch that throws.
  unfoldable pub pick_color : String → Option String
  pick_color email = get_elem? presence_palette (platform.first_byte email % 12)

  unfoldable pub normalize : String → String
  normalize email = platform.to_lower_case (trim email)

  pub put_user : User → Store → Store
  put_user u s = record s {
    users_by_email = Map.set u.email u s.users_by_email;
    users_by_id = Map.set u.id u s.users_by_id;
  }

  -- Where there is an entry, only the display name changes.
  add_user : String → String → String → ℕ → Option String → Store → Option (User × Store)
  unfolding put_user
  add_user email name id now none s = none
  add_user email name id now (some color) s =
      let user : User = record {
        id = id;
        email = email;
        display_name = name;
        color = color;
        created_at = now;
      } in
      some (user, put_user user s)

  upsert_found : String → String → String → ℕ → Store → Option User → Option (User × Store)
  unfolding put_user add_user
  upsert_found email name id now s (some existing) =
      let updated : User = record existing { display_name = name } in
      some (
        updated,
        record s {
          users_by_email = Map.set email updated s.users_by_email;
          users_by_id = Map.set updated.id updated s.users_by_id;
        },
      )
  upsert_found email name id now s none = add_user email name id now (pick_color email) s

  unfoldable pub upsert_user_by_email : String → String → String → ℕ → Store → Option (User × Store)
  unfolding upsert_found pick_color normalize
  upsert_user_by_email email name id now s =
      upsert_found (normalize email) name id now s (Map.get (normalize email) s.users_by_email)

unfoldable pub get_user_by_id : String → Store → Option User
get_user_by_id id s = Map.get id s.users_by_id

unfoldable pub revoke_jti : String → Store → Store
revoke_jti jti s = record s { revoked_jtis = jti ∷ s.revoked_jtis }

unfoldable pub is_jti_revoked : String → Store → Bool
is_jti_revoked jti s = contains jti s.revoked_jtis

put_device : DeviceAuthorization → Store → Store
put_device row s = record s {
  devices_by_device_code = Map.set row.device_code row s.devices_by_device_code;
  devices_by_user_code = Map.set row.user_code row s.devices_by_user_code;
}

unfoldable pub create_device_authorization :
    String → String → String → ℕ → ℕ → Store → DeviceAuthorization × Store
unfolding put_device
create_device_authorization device_code user_code uri interval expires_at s =
    let row : DeviceAuthorization = record {
      device_code = device_code;
      user_code = user_code;
      verification_uri = uri;
      interval_seconds = interval;
      expires_at = expires_at;
      approved_user_id = none;
    } in
    (row, put_device row s)

unfoldable pub get_device_authorization_by_code : String → Store → Option DeviceAuthorization
get_device_authorization_by_code code s = Map.get code s.devices_by_device_code

approve_found : String → Store → Option DeviceAuthorization → Option (DeviceAuthorization × Store)
approve_found user_id s none = none
approve_found user_id s (some existing) =
    let updated : DeviceAuthorization = record existing { approved_user_id = some user_id } in
    some (updated, put_device updated s)

-- `none` is the thrown error.
unfoldable pub approve_device_authorization :
    String → String → Store → Option (DeviceAuthorization × Store)
unfolding approve_found put_device
approve_device_authorization user_code user_id s =
    approve_found user_id s (Map.get user_code s.devices_by_user_code)

unfoldable pub create_refresh_token : String → String → ℕ → Store → RefreshToken × Store
create_refresh_token token user_id expires_at s =
    let row : RefreshToken = record {
      token = token;
      user_id = user_id;
      expires_at = expires_at;
      revoked_at = none;
    } in
    (row, record s { refresh_tokens = Map.set token row s.refresh_tokens })

unfoldable pub get_refresh_token : String → Store → Option RefreshToken
get_refresh_token token s = Map.get token s.refresh_tokens

revoke_found : String → ℕ → Store → Option RefreshToken → Store
revoke_found token now s none = s
revoke_found token now s (some existing) =
    if is_none existing.revoked_at
    then record s {
      refresh_tokens = Map.set token (record existing { revoked_at = some now }) s.refresh_tokens;
    }
    else s

unfoldable pub revoke_refresh_token : String → ℕ → Store → Store
unfolding revoke_found
revoke_refresh_token token now s = revoke_found token now s (Map.get token s.refresh_tokens)
