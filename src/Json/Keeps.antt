-- ===== src/Json/Keeps.antt =====
-- The rules of Http/Keeps for reading a request.
use bartleby.Prelude.{String, Option, none, some}
use bartleby.Http.Keeps.{Keeps, Keeps-pure, Keeps-raise, Keeps-bind}
use bartleby.Json.{
  Json, null, str, arr, obj, Elements, no_elements, element, get_field, as_string, as_strings,
  as_string_array, parse_json_body,
}

module _ {S : Type 0} (P : S → Type 0) where
  pub get_field-Keeps : (v : Json) (k : String) → Keeps P (get_field v k)
  unfolding get_field
  get_field-Keeps null k = Keeps-raise P _
  get_field-Keeps (obj ps) k = Keeps-pure P _
  get_field-Keeps _ k = Keeps-pure P _

  pub as_string-Keeps : (v : Json) → Keeps P (as_string v)
  unfolding as_string
  as_string-Keeps (str s) = Keeps-pure P _
  as_string-Keeps _ = Keeps-raise P _

  as_strings-Keeps : (vs : Elements) → Keeps P (as_strings vs)
  unfolding as_strings
  as_strings-Keeps no_elements = Keeps-pure P _
  as_strings-Keeps (element v vs) =
      Keeps-bind P _ _ (as_string-Keeps v)
        (λ s. Keeps-bind P _ _ (as_strings-Keeps vs) (λ ss. Keeps-pure P _))

  pub as_string_array-Keeps : (v : Json) → Keeps P (as_string_array v)
  unfolding as_string_array
  as_string_array-Keeps (arr vs) = as_strings-Keeps vs
  as_string_array-Keeps _ = Keeps-raise P _

  pub parse_json_body-Keeps : (request : Option Json) → Keeps P (parse_json_body request)
  unfolding parse_json_body
  parse_json_body-Keeps none = Keeps-raise P _
  parse_json_body-Keeps (some v) = Keeps-pure P _

pub ruleset json_keeps =
    (get_field-Keeps, as_string-Keeps, as_string_array-Keeps, parse_json_body-Keeps)
