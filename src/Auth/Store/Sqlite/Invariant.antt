-- ===== src/Auth/Store/Sqlite/Invariant.antt =====
-- Proofs about the users that a sign-in stores (server/src/auth/sqlite-user-store.ts) and a valid
-- database.
use bartleby.Prelude.{ℕ, String, Option, none, some}
use bartleby.Db.{Db, UserRow}
use bartleby.Db.Users
use bartleby.Db.Integrity.{IsValid}
use bartleby.Db.Integrity.Tables.{with_users}
use bartleby.Db.Integrity.Preserves.{Users_insert-IsValid}
use bartleby.Auth.Store.{Store, User, Platform}
use bartleby.Auth.Store.Sqlite.{upsert_row, insert_created, upsert_user_by_email, row_of}

module _ (db : Db) (v : IsValid db) where
  insert_created-IsValid :
      (o : Option (User × Store)) (s : Store) → IsValid (insert_created o (s, db)).1.1
  unfolding insert_created
  insert_created-IsValid none s = v
  insert_created-IsValid (some (user, transient)) s =
      (Users_insert-IsValid (row_of user)).after db v

  upsert_row-IsValid :
      (platform : Platform) (email name id : String) (now : ℕ) (o : Option UserRow) (s : Store)
      → IsValid (upsert_row platform email name id now o (s, db)).1.1
  unfolding upsert_row Users.update_display_name
  upsert_row-IsValid platform email name id now none s = insert_created-IsValid _ s
  upsert_row-IsValid platform email name id now (some row) s = with_users db v _

pub upsert_user_by_email-IsValid :
    (platform : Platform) (email name id : String) (now : ℕ) (transient : Store) (db : Db)
    → IsValid db
    → IsValid (upsert_user_by_email platform email name id now (transient, db)).1.1
unfolding upsert_user_by_email
upsert_user_by_email-IsValid platform email name id now transient db v =
    upsert_row-IsValid db v platform _ name id now _ transient
