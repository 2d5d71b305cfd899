-- ===== src/Json.antt =====
-- The value that `await c.req.json()` yields, and the checks that the handlers make of it
-- (server/src/notes/routes.ts, comments/routes.ts, snapshots/routes.ts: `body['x']`, `asString`,
-- `asStringArray`).
pub mod Keeps
use bartleby.Prelude.{ℕ, String, Bool, ◌==◌, Option, none, some, List, [], ◌∷◌, if◌then◌else◌}
use bartleby.Http.{Exec, validation, internal, pure, raise, ◌>>=◌}

mutual
  -- The fields of an object, in order.
  pub data Properties : Type 0 where
    no_properties : Properties
    property : String → Json → Properties → Properties

  pub data Json : Type 0 where
    obj : Properties → Json
    arr : Elements → Json
    str : String → Json
    bool : Bool → Json
    number : ℕ → Json
    null : Json

  pub data Elements : Type 0 where
    no_elements : Elements
    element : Json → Elements → Elements

abbrev pub prop_of : String → Properties → Option Json
prop_of k no_properties = none
prop_of k (property j v ps) = if j == k then some v else prop_of k ps

module _ {S : Type 0} where
  -- `body[field]` is a TypeError on `null`, and `undefined` on what is no object.
  unfoldable pub get_field : Json → String → Exec S (Option Json)
  get_field null k = raise internal
  get_field (obj ps) k = pure (prop_of k ps)
  get_field v k = pure none

  unfoldable pub as_string : Json → Exec S String
  as_string (str s) = pure s
  as_string v = raise validation

  as_strings : Elements → Exec S (List String)
  as_strings no_elements = pure []
  as_strings (element v vs) = do s ← as_string v; ss ← as_strings vs; pure (s ∷ ss)

  unfoldable pub as_string_array : Json → Exec S (List String)
  unfolding as_string as_strings
  as_string_array (arr vs) = as_strings vs
  as_string_array v = raise validation

  -- `await c.req.json()` with its `catch`: `none` is a body that is not JSON.
  unfoldable pub parse_json_body : Option Json → Exec S Json
  parse_json_body none = raise validation
  parse_json_body (some v) = pure v
