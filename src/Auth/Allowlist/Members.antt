-- ===== src/Auth/Allowlist/Members.antt =====
-- Proofs about server/src/auth/allowlist.ts and server/src/users/routes.ts.
use mathlib.Core.List.{Permᴰ}
use mathlib.Core.Path.{subst}
use bartleby.Prelude.{
  String, Bool, not, ◌≡◌, ◌&&◌, ◌==◌, ◌∙◌, refl, ap, Option, none, some, List, [], ◌∷◌, map,
  contains, arith, eq_iff, Bool-cases, inl, inr,
}
use bartleby.Text.{is_empty}
use bartleby.Sql.Sort.{insertion_sort-perm}
use bartleby.Db.Tags.{unique, is_nil}
use bartleby.Db.Tags.Unique.{contains-unique}
use bartleby.Auth.Map.{get}
use bartleby.Auth.Store.{Platform, User, normalize}
use bartleby.Auth.Session.{split}
use bartleby.Auth.Allowlist.{non_empty, emails_of, load_allowlist, has, by_email, wire, list_users}

contains-non_empty :
    (x : String) (ss : List String)
    → contains x (non_empty ss) ≡ (not (is_empty x) && contains x ss)
contains-non_empty x [] = ground arith
contains-non_empty x (s ∷ ss) = elim (Bool-cases (s == x)) [
  | inl same ↦ rw ((eq_iff s x).0 same) (ground (arith, eq_iff x x, contains-non_empty x ss))
  | inr other ↦ ground (arith, contains-non_empty x ss)
]

module _ (platform : Platform) where
  -- An allowlist that loads has an e-mail just where the e-mail, trimmed and in lower case, is not
  -- empty and is, in that form, one of the parts of the configured text between commas.
  pub has-load_allowlist :
      (raw : String) (emails : List String) (email : String)
      → load_allowlist platform (some raw) ≡ some emails
      → has platform emails email ≡ (
          not (is_empty (normalize platform email))
          && contains (normalize platform email) (map (normalize platform) (split b',' raw)))
  unfolding load_allowlist has emails_of
  has-load_allowlist raw emails email e = elim (Bool-cases (is_nil (emails_of platform raw))) [
    | inl nobody ↦ cc (rw nobody at e)
    | inr somebody ↦
        let same : unique (emails_of platform raw) ≡ emails = cc (rw somebody at e) in
        rw (← same) (
          contains-unique (normalize platform email) (emails_of platform raw)
          ∙ contains-non_empty (normalize platform email)
              (map (normalize platform) (split b',' raw)))
  ]

map-perm :
    {A : Type 0} (f : A → String) {xs ys : List A} → Permᴰ xs ys → Permᴰ (map f xs) (map f ys)
map-perm f Permᴰ.nil = Permᴰ.nil
map-perm f (Permᴰ.cons e d) = Permᴰ.cons (ap f e) (map-perm f d)
map-perm f (Permᴰ.swap e g) = Permᴰ.swap (ap f e) (ap f g)
map-perm f (Permᴰ.trans d e) = Permᴰ.trans (map-perm f d) (map-perm f e)

wire_email : (email : String) (found : Option User) → (wire email found).email ≡ email
unfolding wire
wire_email email none = refl
wire_email email (some user) = refl

module _ (le : String → String → Bool) (signed_in : List User) where
  emails_kept :
      (emails : List String)
      → map (λ r. r.email) (map (λ email. wire email (get email (by_email signed_in []))) emails)
        ≡ emails
  emails_kept [] = refl
  emails_kept (email ∷ emails) =
      rw (wire_email email (get email (by_email signed_in [])), emails_kept emails) refl

  -- GET /users lists one row for each e-mail of the allowlist, with that e-mail, in some order,
  -- whoever has signed in.
  pub list_users-perm :
      (allowlist : List String)
      → Permᴰ (map (λ r. r.email) (list_users le allowlist signed_in)) allowlist
  unfolding list_users
  list_users-perm allowlist =
      let rows = map (λ email. wire email (get email (by_email signed_in []))) allowlist in
      subst (λ emails. Permᴰ (map (λ r. r.email) (list_users le allowlist signed_in)) emails)
        (emails_kept allowlist)
        (map-perm (λ r. r.email) (insertion_sort-perm (λ a b. le a.email b.email) rows))
