-- ===== src/Auth/Store/Sqlite.antt =====
-- The session store whose users are rows of the database (server/src/auth/sqlite-user-store.ts):
-- the table of users beside a store in memory, which keeps all the rest.
pub mod Writes
pub mod Invariant
pub mod Refinement
use bartleby.Prelude.{ℕ, String, Bool, Option, none, some, List, map}
use bartleby.Http.{Error, Result, ok, err, internal}
use bartleby.Sql.{OrderBy}
use bartleby.Sql.Sort.{insertion_sort}
use bartleby.Db.{Db, UserRow}
use bartleby.Db.Users
use bartleby.Auth.Store
use bartleby.Auth.Store.{Store, User, Platform, normalize}

-- `transient`, and the database.
abbrev pub State : Type 0
State = Store × Db

abbrev pub to_session_user : UserRow → User
to_session_user row = record {
  id = row.id;
  email = row.email;
  display_name = row.display_name;
  color = row.color;
  created_at = row.created_at;
}

abbrev pub row_of : User → UserRow
row_of user = record {
  id = user.id;
  email = user.email;
  display_name = user.display_name;
  color = user.color;
  created_at = user.created_at;
}

-- What a read of one row shows.
abbrev pub shown : Option UserRow → Option User
shown none = none
shown (some row) = some (to_session_user row)

updated_user : Option UserRow → Result User
updated_user none = err internal
updated_user (some row) = ok (to_session_user row)

inserted_user : User → Result Unit → Result User
inserted_user user (err problem) = err problem
inserted_user user (ok done) = ok (to_session_user (row_of user))

-- A new user of the store in memory becomes a row.
insert_created : Option (User × Store) → State → Result User × State
unfolding inserted_user
insert_created none s = (err internal, s)
insert_created (some (user, transient)) s =
    let out = Users.insert (row_of user) s.1 in (inserted_user user out.0, (transient, out.1))

module _ (platform : Platform) where
  upsert_row : String → String → String → ℕ → Option UserRow → State → Result User × State
  unfolding updated_user insert_created
  upsert_row email name id now (some existing) s =
      let out = Users.update_display_name existing.id name s.1 in (updated_user out.0, (s.0, out.1))
  upsert_row email name id now none s =
      insert_created (Store.upsert_user_by_email platform email name id now s.0) s

  unfoldable pub upsert_user_by_email : String → String → String → ℕ → State → Result User × State
  unfolding upsert_row
  upsert_user_by_email email name id now s =
      let normalized_email = normalize platform email in
      upsert_row normalized_email name id now (Users.find_by_email normalized_email s.1) s

unfoldable pub get_user_by_id : String → State → Option User
unfolding Users.find_by_id
get_user_by_id id s = shown (Users.find_by_id id s.1)

-- `localeCompare` is a parameter.
unfoldable pub list_users : OrderBy → (String → String → Bool) → State → List User
unfolding Users.list
list_users order le s =
    insertion_sort (λ a b. le a.email b.email) (map to_session_user (Users.list order s.1))

abbrev pub beside : Db → Option Store → Option State
beside db none = none
beside db (some transient) = some (transient, db)

-- The other operations are the ones of `transient`; `none` is a throw.
abbrev pub in_memory : (Store → Option Store) → State → Option State
in_memory operation s = beside s.1 (operation s.0)
