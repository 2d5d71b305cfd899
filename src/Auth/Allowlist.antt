-- ===== src/Auth/Allowlist.antt =====
-- Who may sign in (server/src/auth/allowlist.ts), and the list for the mention picker
-- (server/src/users/routes.ts). `localeCompare` is a parameter.
pub mod Members
use bartleby.Prelude.{
  ℕ, String, Bool, true, false, Option, none, some, List, [], ◌∷◌, map, contains, if◌then◌else◌,
}
use bartleby.Text.{is_empty}
use bartleby.Sql.Sort.{insertion_sort}
use bartleby.Db.Tags.{unique, is_nil}
use bartleby.Auth.Map.{Map, get, set}
use bartleby.Auth.Store.{Platform, User, normalize}
use bartleby.Auth.Session.{split}

-- `.filter((s) => s.length > 0)`
abbrev pub non_empty : List String → List String
non_empty [] = []
non_empty (s ∷ ss) = if is_empty s then non_empty ss else s ∷ non_empty ss

module _ (platform : Platform) where
  emails_of : String → List String
  unfolding split normalize
  emails_of raw = non_empty (map (normalize platform) (split b',' raw))

  -- `none` is the error that stops the server. The elements are those of a `Set`.
  unfoldable pub load_allowlist : Option String → Option (List String)
  unfolding emails_of unique
  load_allowlist none = none
  load_allowlist (some raw) = if is_nil (emails_of raw) then none else some (unique (emails_of raw))

  unfoldable pub has : List String → String → Bool
  unfolding normalize
  has emails email = contains (normalize platform email) emails

pub record UserWire : Type 0 where
  pub email : String
  pub display_name : Option String
  pub user_id : Option String
  pub color : Option String
  pub signed_in : Bool

-- `new Map(signedIn.map((u) => [u.email, u]))`
by_email : List User → Map User → Map User
by_email [] m = m
by_email (u ∷ us) m = by_email us (set u.email u m)

wire : String → Option User → UserWire
wire email none = record {
  email = email;
  display_name = none;
  user_id = none;
  color = none;
  signed_in = false;
}
wire email (some user) = record {
  email = email;
  display_name = some user.display_name;
  user_id = some user.id;
  color = some user.color;
  signed_in = true;
}

-- GET /users; `le` is what `localeCompare` sorts by.
unfoldable pub list_users : (String → String → Bool) → List String → List User → List UserWire
unfolding by_email wire
list_users le allowlist signed_in =
    insertion_sort (λ a b. le a.email b.email)
      (map (λ email. wire email (get email (by_email signed_in []))) allowlist)
