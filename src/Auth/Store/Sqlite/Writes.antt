-- ===== src/Auth/Store/Sqlite/Writes.antt =====
-- Proofs about the users of the session store over the database
-- (server/src/auth/sqlite-user-store.ts) after a sign-in, against the store in memory.
use bartleby.Prelude.{
  String, false, ◌≡◌, ◌≢◌, ◌++◌, ◌==◌, refl, sym, Option, none, some, List, [], ◌∷◌, eq_iff,
  eq_self, eq_of_ne, Bool-cases, Option-cases, inl, inr, if◌then◌else◌,
}
use mathlib.Core.Path.{subst}
use bartleby.Sql.{find, update}
use bartleby.Sql.Rows.{
  Distinct, keyed, find-keyed, find-update, find-insert, find-update_other, find-Distinct, any-find,
  Distinct-insert, Distinct-update,
}
use bartleby.Db.{Db, UserRow}
use bartleby.Db.Users.{user_email, find_by_email, find_by_id}
use bartleby.Db.Notes.{user_id}
use bartleby.Auth.Map.{Map, get, set, get-set}
use bartleby.Auth.Store.{User, Store, Platform, DeviceAuthorization, RefreshToken, put_user}
use bartleby.Auth.Store.Sqlite.{State, to_session_user, row_of, shown}

-- What neither store has in the database.
abbrev pub Rest : Type 0
Rest = List String × Map DeviceAuthorization × Map DeviceAuthorization × Map RefreshToken

abbrev pub rest : Store → Rest
rest s = (s.revoked_jtis, s.devices_by_device_code, s.devices_by_user_code, s.refresh_tokens)

-- The store over the database shows the users, and keeps the rest, of a store in memory.
pub record Refines (s : Store) (t : State) : Type 0 where
  pub distinct : Distinct user_id t.1.users
  pub by_email : (email : String) → get email s.users_by_email ≡ shown (find_by_email email t.1)
  pub by_id : (id : String) → get id s.users_by_id ≡ shown (find_by_id id t.1)
  pub unseen :
      (email : String) → find_by_email email t.1 ≡ none → get email t.0.users_by_email ≡ none
  pub kept : rest t.0 ≡ rest s

unfoldable pub renamed : String → UserRow → UserRow
renamed name row = record row { display_name = name }

shown-none : (o : Option UserRow) → shown o ≡ none → o ≡ none
shown-none none e = refl
shown-none (some row) e = cc

-- An e-mail that has a row.
module _ (s : Store) (t : State) (r : Refines s t) (email name : String) (row : UserRow)
    (found : find_by_email email t.1 ≡ some row) where
  row_by_id : find_by_id row.id t.1 ≡ some row
  unfolding find_by_id find_by_email
  row_by_id = find-Distinct user_id (keyed user_email email) t.1.users row r.distinct found

  unfoldable pub after : Db
  after = record t.1 { users = update (keyed user_id row.id) (renamed name) t.1.users }

  -- Another row has another id.
  other_id :
      (e : String) (other : UserRow)
      → email ≢ e
      → find_by_email e t.1 ≡ some other
      → (other.id == row.id) ≡ false
  unfolding find_by_email find_by_id
  other_id e other differs there = eq_of_ne other.id row.id λ same.
      let mine = row_by_id in
      let its = find-Distinct user_id (keyed user_email e) t.1.users other r.distinct there in
      let row_email = find-keyed user_email email t.1.users row found in
      let its_email = find-keyed user_email e t.1.users other there in differs cc

  update_email :
      (e : String)
      → shown (find_by_email e after) ≡ (
          if email == e
          then some (to_session_user (renamed name row))
          else shown (find_by_email e t.1))
  unfolding after find_by_email renamed
  update_email e =
      let step =
        find-update_other (keyed user_email e) (keyed user_id row.id) (renamed name) (λ x. refl)
          t.1.users in
      elim (Bool-cases (email == e)) [
        | inl same ↦
            let there : find_by_email e t.1 ≡ some row =
              subst (λ x. find_by_email x t.1 ≡ some row) ((eq_iff email e).0 same) found in
            rw (step, same, there, eq_self row.id) refl
        | inr differs ↦
            rw (step, differs)
              (elim (Option-cases (find_by_email e t.1)) [
                | inl absent ↦ rw absent refl
                | inr (other, there) ↦
                    rw
                      (there, other_id e other (λ same. cc (rw (same, eq_self e) at differs)) there)
                      refl
              ])
      ]

  update_id :
      (id : String)
      → shown (find_by_id id after) ≡ (
          if row.id == id
          then some (to_session_user (renamed name row))
          else shown (find_by_id id t.1))
  unfolding after find_by_id renamed
  update_id id =
      let step = find-update user_id row.id id (renamed name) (λ x. refl) t.1.users in
      elim (Bool-cases (row.id == id)) [
        | inl same ↦
            let there : find_by_id id t.1 ≡ some row =
              subst (λ i. find_by_id i t.1 ≡ some row) ((eq_iff row.id id).0 same) row_by_id in
            rw (step, same, there) refl
        | inr differs ↦ rw (step, differs) refl
      ]

  pub updated_row : find_by_id row.id after ≡ some (renamed name row)
  unfolding after find_by_id renamed
  updated_row =
      rw
        (
          find-update user_id row.id row.id (renamed name) (λ x. refl) t.1.users,
          eq_self row.id,
          row_by_id,
        )
        refl

  -- The store in memory after the same sign-in.
  unfoldable pub signed_in : Store
  signed_in =
      let user = to_session_user (renamed name row) in
      record s {
        users_by_email = set email user s.users_by_email;
        users_by_id = set row.id user s.users_by_id;
      }

  still_absent : (e : String) → find_by_email e after ≡ none → find_by_email e t.1 ≡ none
  still_absent e h = shown-none (find_by_email e t.1) (elim (Bool-cases (email == e)) [
    | inl same ↦ cc (rw (h, same) at (update_email e))
    | inr differs ↦ sym (rw (h, differs) at (update_email e))
  ])

  pub update-Refines : Refines signed_in (t.0, after)
  unfolding signed_in after renamed
  update-Refines = record {
    distinct = Distinct-update user_id _ (renamed name) (λ x. refl) t.1.users r.distinct;
    by_email = λ e. rw (get-set email e, r.by_email e, update_email e) refl;
    by_id = λ i. rw (get-set row.id i, r.by_id i, update_id i) refl;
    unseen = λ e h. r.unseen e (still_absent e h);
    kept = r.kept;
  }

-- What is read after a new user became a row.
insert_shown :
    (key : UserRow → String) (u : User) (k : String) (rows : List UserRow)
    → find (keyed key (key (row_of u))) rows ≡ none
    → shown (find (keyed key k) (rows ++ row_of u ∷ []))
      ≡ (if key (row_of u) == k then some u else shown (find (keyed key k) rows))
insert_shown key u k rows absent = elim (Bool-cases (key (row_of u) == k)) [
  | inl same ↦
      let none_yet : find (keyed key k) rows ≡ none =
        subst (λ i. find (keyed key i) rows ≡ none) ((eq_iff (key (row_of u)) k).0 same) absent in
      rw (find-insert key k (row_of u) rows, none_yet, same) refl
  | inr differs ↦ elim (Option-cases (find (keyed key k) rows)) [
    | inl none_yet ↦ rw (find-insert key k (row_of u) rows, none_yet, differs) refl
    | inr (row, there) ↦ rw (find-insert key k (row_of u) rows, there, differs) refl
  ]
]

-- An e-mail and an id that have no row.
module _ (platform : Platform) (s : Store) (t : State) (r : Refines s t) (u : User)
    (no_email : find_by_email u.email t.1 ≡ none) (no_id : find_by_id u.id t.1 ≡ none) where
  pub insert-Refines :
      Refines
        (put_user platform u s)
        (put_user platform u t.0, record t.1 { users = t.1.users ++ row_of u ∷ [] })
  unfolding put_user find_by_email find_by_id
  insert-Refines = record {
    distinct = Distinct-insert user_id (row_of u) t.1.users (any-find _ t.1.users no_id) r.distinct;
    by_email = λ e.
        rw (get-set u.email e, r.by_email e, insert_shown user_email u e t.1.users no_email) refl;
    by_id = λ i. rw (get-set u.id i, r.by_id i, insert_shown user_id u i t.1.users no_id) refl;
    unseen = λ e h.
        let seen = rw h at (insert_shown user_email u e t.1.users no_email) in
        rw (get-set u.email e) (elim (Bool-cases (u.email == e)) [
          | inl same ↦ cc (rw same at seen)
          | inr differs ↦ rw (differs, r.unseen e (shown-none _ (sym (rw differs at seen)))) refl
        ]);
    kept = r.kept;
  }
