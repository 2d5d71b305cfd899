-- ===== src/Db/Users.antt =====
-- server/src/db/repositories/users.ts
use bartleby.Prelude.{String, ◌||◌, Option, List, if◌then◌else◌}
use bartleby.Http.{Exec, internal, raise, modify, ◌>>=◌}
use bartleby.Sql.{OrderBy, update, find, insert as append, any, asc}
use bartleby.Sql.Rows.{keyed}
use bartleby.Db.{Db, UserRow}
use bartleby.Db.Notes.{user_id}

abbrev pub user_email : UserRow → String
user_email u = u.email

-- The primary key and the unique index on `email`.
unfoldable pub insert : UserRow → Exec Db Unit
unfolding ◌>>=◌
insert u db =
    if any (keyed user_id u.id) db.users || any (keyed user_email u.email) db.users
    then raise internal db
    else modify (λ d. record d { users = append u d.users }) db

unfoldable pub find_by_id : String → Db → Option UserRow
find_by_id id db = find (keyed user_id id) db.users

unfoldable pub find_by_email : String → Db → Option UserRow
find_by_email email db = find (keyed user_email email) db.users

-- UPDATE … RETURNING *
unfoldable pub update_display_name : String → String → Db → Option UserRow × Db
unfolding find_by_id
update_display_name id name db =
    let db' = record db {
      users = update (keyed user_id id) (λ u. record u { display_name = name }) db.users;
    } in
    (find_by_id id db', db')

unfoldable pub list : OrderBy → Db → List UserRow
list order db = order.sort (asc (λ u. u.created_at)) db.users
