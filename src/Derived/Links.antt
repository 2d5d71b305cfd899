-- ===== src/Derived/Links.antt =====
-- server/src/derived/backlinks.ts
use bartleby.Prelude.{
  ℕ, String, Bool, not, ◌||◌, Option, none, some, List, [], ◌∷◌, ◌++◌, nat_eq, contains,
  if◌then◌else◌,
}
use bartleby.Text.{trim, is_empty}
use bartleby.Regex.{Regex, chars, seq, group, literal, some_of, Match, match_all}
use bartleby.Db.Backlinks.{BacklinkInput}
use bartleby.Derived.Code.{strip_code}
use bartleby.Derived.Tags.{captured}

-- `[^[\]\n]`
abbrev pub is_title_char : ℕ → Bool
is_title_char c = not (nat_eq c b'[' || nat_eq c b']' || nat_eq c 10)

-- `\[\[([^[\]\n]+)\]\]`
abbrev pub backlink : Regex
backlink = seq (literal "[[") (seq (group (some_of (chars is_title_char))) (literal "]]"))

-- One round: `seen` and `ordered` have the same elements.
add_title : String → List String → List String
add_title title ordered =
    if is_empty title || contains title ordered then ordered else ordered ++ title ∷ []

unfoldable pub add_titles : List Match → List String → List String
unfolding add_title
add_titles [] ordered = ordered
add_titles (m ∷ ms) ordered = add_titles ms (add_title (trim (captured m)) ordered)

unfoldable pub extract_backlinks : String → List String
unfolding add_titles strip_code match_all
extract_backlinks markdown = add_titles (match_all backlink (strip_code markdown)) []

unfoldable pub resolve_backlinks : List String → (String → Option String) → List BacklinkInput
resolve_backlinks [] resolve = []
resolve_backlinks (title ∷ titles) resolve = elim (resolve title) [
  | none ↦ resolve_backlinks titles resolve
  | some target ↦
      record { target_note_id = target; link_text = title } ∷ resolve_backlinks titles resolve
]
