-- ===== src/Export/Serializer.antt =====
-- server/src/export/serializer.ts. `toLowerCase` is a parameter.
pub mod Quote
pub mod Slug
use Prim.Native.Char.{code}
use Prim.Native.String
use bartleby.Prelude.{
  ℕ, String, Bool, true, false, not, ◌||◌, List, [], ◌∷◌, ◌++◌, map, nat_eq, contains,
  if◌then◌else◌,
}
use bartleby.Text.{is_space, is_empty, take_text, join}
use bartleby.Regex.{
  Regex, chars, seq, alt, start, finish, char, some_of, is_word, test, replace_all,
}
use bartleby.Db.{NoteRow}

-- `/[\s:#"'\\\n]/`
abbrev is_special : ℕ → Bool
is_special c =
    is_space c || nat_eq c b':' || nat_eq c b'#' || nat_eq c 34 || nat_eq c 39 || nat_eq c 92

abbrev pub has_special : String → Bool
has_special String.[] = false
has_special (String.◌∷◌ c s) = is_special (code c) || has_special s

-- `s.replace(/c/g, by)`, for one character `c`
unfoldable pub substitute : ℕ → String → String → String
substitute c by String.[] = String.[]
substitute c by (String.◌∷◌ d s) =
    String.◌++◌ (if nat_eq (code d) c then by else String.◌∷◌ d String.[]) (substitute c by s)

abbrev quoted : String → String
quoted s = String.◌++◌ "\"" (String.◌++◌ s "\"")

unfoldable pub quote : String → String
unfolding substitute
quote s =
    if has_special s || is_empty s
    then quoted (substitute 34 "\\\"" (substitute 92 "\\\\" s))
    else s

tags_line : List String → List String
unfolding quote join
tags_line [] = []
tags_line (t ∷ ts) = String.◌++◌ "tags: [" (String.◌++◌ (join ", " (map quote (t ∷ ts))) "]") ∷ []

unfoldable pub build_export_markdown : NoteRow → List String → String
unfolding tags_line
build_export_markdown row tags = join "\n" (
    "---" ∷ String.◌++◌ "title: " (quote row.title) ∷ tags_line tags
    ++ "---" ∷ "" ∷ row.markdown_export ∷ [])

-- `[^\w\s-]`, `[\s_]`
abbrev pub is_dropped : ℕ → Bool
is_dropped c = not (is_word c || is_space c || nat_eq c b'-')

abbrev pub is_gap : ℕ → Bool
is_gap c = is_space c || nat_eq c b'_'

abbrev dashes : Regex
dashes = some_of (char b'-')

-- `/^-+|-+$/g`
abbrev outer_dashes : Regex
outer_dashes = alt (seq start dashes) (seq dashes finish)

pub record Assignment : Type 0 where
  pub id : String
  pub filename : String

module _ (to_lower_case : String → String) where
  unfoldable pub base : String → String
  unfolding replace_all
  base title = replace_all outer_dashes "" (
      replace_all dashes "-" (
        replace_all (some_of (chars is_gap)) "-"
          (replace_all (some_of (chars is_dropped)) "" (to_lower_case title))))

  unfoldable pub slugify : String → String
  unfolding base
  slugify title = if is_empty (base title) then "untitled" else base title

  abbrev pub plain_name : NoteRow → String
  unfolding slugify
  plain_name n = String.◌++◌ (slugify n.title) ".md"

  -- With `-` and the first eight characters of the id.
  abbrev pub long_name : NoteRow → String
  unfolding slugify
  long_name n =
      String.◌++◌ (slugify n.title) (String.◌++◌ "-" (String.◌++◌ (take_text 8 n.id) ".md"))

  abbrev pub name_in : List String → NoteRow → String
  name_in seen n = if contains (plain_name n) seen then long_name n else plain_name n

  assign_from : List String → List NoteRow → List Assignment
  assign_from seen [] = []
  assign_from seen (n ∷ notes) =
      record { id = n.id; filename = name_in seen n } ∷ assign_from (name_in seen n ∷ seen) notes

  unfoldable pub assign_zip_filenames : List NoteRow → List Assignment
  unfolding assign_from
  assign_zip_filenames = assign_from []
