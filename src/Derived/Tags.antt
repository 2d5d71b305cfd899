-- ===== src/Derived/Tags.antt =====
-- server/src/derived/tags.ts. The package yaml is a parameter, with what the code looks at in the
-- value that it returns; so is `toLowerCase`.
pub mod Spelling
use bartleby.Prelude.{
  ℕ, String, Bool, ◌==◌, ◌||◌, not, Option, none, some, List, [], ◌∷◌, ◌++◌, nat_eq, is_some,
  if◌then◌else◌,
}
use Prim.Native.String.{count}
use bartleby.Text.{is_empty, drop_text}
use bartleby.Auth.Map.{Map, get, set}
use bartleby.Regex.{
  Regex, chars, seq, alt, many, many_lazy, group, start, char, literal, optional, is_letter,
  is_word, Match, match_all, exec,
}
use bartleby.Derived.Code.{anything, strip_code_and_urls}

-- An element of a sequence; a number comes with the text that `String` makes of it.
pub data Item : Type 0 where
  text : String → Item
  numeral : String → Item
  other_item : Item

pub data Field : Type 0 where
  string : String → Field
  sequence : List Item → Field
  other_field : Field

-- `other` is a value that is no mapping.
pub data Yaml : Type 0 where
  mapping : List (String × Field) → Yaml
  other : Yaml

-- `^---\r?\n([\s\S]*?)\r?\n---\r?\n?`
abbrev line_break : Regex
line_break = seq (optional (char 13)) (char 10)

abbrev pub frontmatter : Regex
frontmatter = seq start (
    seq (literal "---") (
      seq line_break (
        seq (group (many_lazy anything))
          (seq line_break (seq (literal "---") (seq (optional (char 13)) (optional (char 10))))))))

abbrev hash : ℕ → Bool
hash c = nat_eq c b'#'

-- `(?:^|[^\w#])#([A-Za-z][\w-]*)`
abbrev pub hashtag : Regex
hashtag = seq (alt start (chars (λ c. not (is_word c || hash c)))) (
    seq (chars hash)
      (group (seq (chars is_letter) (many (chars (λ c. is_word c || nat_eq c b'-'))))))

-- `m[1]`
abbrev pub captured : Match → String
captured m = elim m.groups [ [] ↦ "" | g ∷ gs ↦ g ]

abbrev pub field : String → List (String × Field) → Option Field
field k [] = none
field k ((j, v) ∷ fields) = if j == k then some v else field k fields

-- The texts and the numbers of the sequence; an empty text is left out.
abbrev pub item_tags : List Item → List String
item_tags [] = []
item_tags (text s ∷ items) = if is_empty s then item_tags items else s ∷ item_tags items
item_tags (numeral s ∷ items) = s ∷ item_tags items
item_tags (other_item ∷ items) = item_tags items

abbrev pub field_tags : Option Field → List String
field_tags (some (sequence items)) = item_tags items
field_tags _ = []

abbrev pub yaml_tags : Option Yaml → List String
yaml_tags (some (mapping fields)) = field_tags (field "tags" fields)
yaml_tags _ = []

abbrev pub captures : List Match → List String
captures [] = []
captures (m ∷ ms) = captured m ∷ captures ms

unfoldable from_inline : String → List String
unfolding strip_code_and_urls match_all
from_inline body = captures (match_all hashtag (strip_code_and_urls body))

abbrev pub values : Map String → List String
values [] = []
values ((k, v) ∷ entries) = v ∷ values entries

module _ (to_lower_case : String → String) where
  -- The first spelling of a tag stays.
  add_tag : String → Map String → Map String
  add_tag tag seen =
      if is_some (get (to_lower_case tag) seen) then seen else set (to_lower_case tag) tag seen

  unfoldable pub add_tags : List String → Map String → Map String
  unfolding add_tag
  add_tags [] seen = seen
  add_tags (tag ∷ tags) seen = add_tags tags (add_tag tag seen)

module _ (parse_yaml : String → Option Yaml) (to_lower_case : String → String) where
  -- The tags of the frontmatter and the text behind it; where the YAML is malformed, it has no tags.
  from_match : String → Option Match → List String × String
  from_match md none = ([], md)
  from_match md (some m) = (yaml_tags (parse_yaml (captured m)), drop_text (count m.text) md)

  unfoldable pub from_frontmatter : String → List String × String
  unfolding from_match exec
  from_frontmatter md = from_match md (exec frontmatter md)

  -- The tags that are found, in the order in which they are found.
  unfoldable pub candidates : String → List String
  unfolding from_frontmatter from_inline
  candidates markdown = (from_frontmatter markdown).0 ++ from_inline (from_frontmatter markdown).1

  unfoldable pub extract_tags : String → List String
  unfolding add_tags candidates
  extract_tags markdown = values (add_tags to_lower_case (candidates markdown) [])
