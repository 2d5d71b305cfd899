-- ===== src/Auth/Store/Users.antt =====
-- Proofs about the users of the session store (server/src/auth/store.ts).
use bartleby.Prelude.{ℕ, String, ◌≡◌, refl, ap, Option, none, some, Option-cases, inl, inr, eq_self}
use bartleby.Auth.Map.{get, set, get-set}
use bartleby.Auth.Store.{
  User, Store, Platform, put_user, add_user, upsert_found, pick_color, normalize,
  upsert_user_by_email, get_user_by_id,
}

-- A store that knows a user under an e-mail and an id.
abbrev pub IsKnown : String → User → Store → Type 0
IsKnown email u s = (get email s.users_by_email ≡ some u) × (get u.id s.users_by_id ≡ some u)

module _ (platform : Platform) where
  put-IsKnown :
      (email : String) (u : User) (s : Store)
      → IsKnown email u (record s {
        users_by_email = set email u s.users_by_email;
        users_by_id = set u.id u s.users_by_id;
      })
  put-IsKnown email u s =
      (rw (get-set email email, eq_self email) refl, rw (get-set u.id u.id, eq_self u.id) refl)

  found-IsKnown :
      (email name id : String) (now : ℕ) (s s' : Store) (o : Option User) (u : User)
      → upsert_found platform email name id now s o ≡ some (u, s')
      → IsKnown email u s'
  unfolding upsert_found add_user put_user
  found-IsKnown email name id now s s' (some existing) u e =
      let updated : User = record existing { display_name = name } in
      let same_user : updated ≡ u = cc in
      let same_store = ap (λ o. elim o [ none ↦ s | some p ↦ p.1 ]) e in
      rw (← same_store, ← same_user) (put-IsKnown email updated s)
  found-IsKnown email name id now s s' none u e = elim (Option-cases (pick_color platform email)) [
    | inl no_color ↦ cc (rw no_color at e)
    | inr (color, picked) ↦
        let added : User = record {
          id = id;
          email = email;
          display_name = name;
          color = color;
          created_at = now;
        } in
        let e' = rw picked at e in
        let same_user : added ≡ u = cc in
        let same_store = ap (λ o. elim o [ none ↦ s | some p ↦ p.1 ]) e' in
        rw (← same_store, ← same_user) (put-IsKnown email added s)
  ]

  -- Whoever signs in again with an e-mail that is the same once trimmed and in lower case is the
  -- user that the first sign-in gave: same id, e-mail, color and creation time, with the new
  -- display name, and found under the id.
  pub upsert_user_by_email_again :
      (email name id email' name' id' : String) (now now' : ℕ) (u : User) (s s' : Store)
      → upsert_user_by_email platform email name id now s ≡ some (u, s')
      → normalize platform email' ≡ normalize platform email
      → (s'' : Store) × (upsert_user_by_email platform email' name' id' now' s'
          ≡ some (record u { display_name = name' }, s''))
        × (get_user_by_id u.id s'' ≡ some (record u { display_name = name' }))
  unfolding upsert_user_by_email upsert_found get_user_by_id
  upsert_user_by_email_again email name id email' name' id' now now' u s s' e same =
      let key = normalize platform email in
      let updated : User = record u { display_name = name' } in
      let known = found-IsKnown key name id now s s' (get key s.users_by_email) u e in
      (
        record s' {
          users_by_email = set key updated s'.users_by_email;
          users_by_id = set u.id updated s'.users_by_id;
        },
        rw (same, upsert_user_by_email, known.0) refl,
        (put-IsKnown key updated s').1,
      )

  pub get_user_by_id-upsert_user_by_email :
      (email name id : String) (now : ℕ) (u : User) (s s' : Store)
      → upsert_user_by_email platform email name id now s ≡ some (u, s')
      → get_user_by_id u.id s' ≡ some u
  unfolding upsert_user_by_email get_user_by_id
  get_user_by_id-upsert_user_by_email email name id now u s s' e =
      let key = normalize platform email in
      (found-IsKnown key name id now s s' (get key s.users_by_email) u e).1
