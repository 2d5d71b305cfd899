-- ===== src/Auth/Store/Sqlite/Refinement.antt =====
-- Proofs about the session store over the database (server/src/auth/sqlite-user-store.ts): it does
-- what the one in memory does (server/src/auth/store.ts).
use bartleby.Prelude.{
  ℕ, String, ◌≡◌, ◌++◌, ◌<◌, ◌%◌, refl, none, some, List, [], ◌∷◌, zero, length, suc, arith,
  Option-cases, inl, inr,
}
use bartleby.Sql.Rows.{keyed, any-find}
use bartleby.Http.{ok}
use bartleby.Db.{Db}
use bartleby.Db.Users
use bartleby.Db.Users.{user_email, find_by_email, find_by_id}
use bartleby.Db.Notes.{user_id}
use bartleby.Auth.Map.{get}
use bartleby.Auth.Store
use bartleby.Auth.Store.{
  User, Store, Platform, revoke_found, put_device, approve_found, revoke_refresh_token,
  create_refresh_token, approve_device_authorization, create_device_authorization, revoke_jti,
  DeviceAuthorization, RefreshToken, put_user, add_user, upsert_found, pick_color, normalize,
  get_elem?, presence_palette,
}
use bartleby.Auth.Store.Sqlite.{
  State, to_session_user, row_of, updated_user, inserted_user, insert_created, upsert_row,
  upsert_user_by_email,
}
use bartleby.Auth.Store.Sqlite.Writes.{
  Refines, renamed, after, signed_in, updated_row, update-Refines, insert-Refines,
}

get_elem?_lem :
    (xs : List String) (i : ℕ) → i < length xs → (x : String) × (get_elem? xs i ≡ some x)
get_elem?_lem [] i h = absurd (omega arith)
get_elem?_lem (x ∷ xs) zero h = (x, refl)
get_elem?_lem (x ∷ xs) (suc i) h = get_elem?_lem xs i (omega arith)

pick_color_total :
    (platform : Platform) (email : String)
    → (color : String) × (pick_color platform email ≡ some color)
unfolding pick_color
pick_color_total platform email =
    get_elem?_lem presence_palette (platform.first_byte email % 12) (omega arith)

module _ (platform : Platform) (s : Store) (t : State) (name id : String) (now : ℕ) where
  -- Both stores sign the same user in.
  abbrev pub Both : String → Type 0
  Both email =
      (u : User) × (s' : Store) × (t' : State) × (Store.upsert_user_by_email platform email name id
          now s
        ≡ some (u, s'))
      × (upsert_user_by_email platform email name id now t ≡ (ok u, t'))
      × Refines s' t'

-- One sign-in.
module _ (platform : Platform) (s : Store) (t : State) (r : Refines s t) (name id : String)
    (now : ℕ) (free : find_by_id id t.1 ≡ none) where
  -- Where the store over the database shows the users of the store in memory and keeps the same
  -- revocations, devices and refresh tokens, the new id has no row, and trimming and lower-casing
  -- the e-mail twice is the same as once, a sign-in succeeds in both stores, gives the same user in
  -- both, and leaves them related in the same way.
  pub upsert_user_by_email-Refines :
      (email : String)
      → normalize platform (normalize platform email) ≡ normalize platform email
      → Both platform s t name id now email
  unfolding upsert_user_by_email Store.upsert_user_by_email upsert_row upsert_found signed_in after
      updated_user insert_created inserted_user add_user find_by_id find_by_email Users.insert
      Users.update_display_name renamed
  upsert_user_by_email-Refines email again =
      let key = normalize platform email in
      elim (Option-cases (find_by_email key t.1)) [
        | inl absent ↦
            let (color, picked) = pick_color_total platform key in
            let u : User = record {
              id = id;
              email = key;
              display_name = name;
              color = color;
              created_at = now;
            } in
            (
              u,
              put_user platform u s,
              (put_user platform u t.0, record t.1 { users = t.1.users ++ row_of u ∷ [] }),
              rw (r.by_email key, absent, picked) refl,
              rw
                  (
                    absent,
                    again,
                    r.unseen key absent,
                    picked,
                    any-find (keyed user_id id) t.1.users free,
                    any-find (keyed user_email key) t.1.users absent,
                  )
                  refl,
              insert-Refines platform s t r u absent free,
            )
        | inr (row, found) ↦ (
          to_session_user (renamed name row),
          signed_in s t r key name row found,
          (t.0, after s t r key name row found),
          rw (r.by_email key, found) refl,
          rw (found, updated_row s t r key name row found) refl,
          update-Refines s t r key name row found,
        )
      ]

-- A store in memory with no user, over no user.
pub empty-Refines : (db : Db) → db.users ≡ [] → Refines Store.empty (Store.empty, db)
unfolding find_by_email find_by_id get
empty-Refines db none_there = record {
  distinct = rw none_there tt;
  by_email = λ e. rw none_there refl;
  by_id = λ i. rw none_there refl;
  unseen = λ e h. refl;
  kept = refl;
}
