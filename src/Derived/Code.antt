-- ===== src/Derived/Code.antt =====
-- The parts of a Markdown text that the extractors do not look at: code and addresses
-- (server/src/derived/backlinks.ts, tags.ts).
use bartleby.Prelude.{ℕ, String, Bool, true, not, nat_eq}
use bartleby.Text.{is_space}
use bartleby.Regex.{
  Regex, chars, seq, alt, many, many_lazy, boundary, literal, char, some_of, optional, replace_all,
}

-- `[\s\S]`, and `[^c]`
abbrev pub anything : Regex
anything = chars (λ c. true)

abbrev pub other_than : ℕ → Regex
other_than c = chars (λ d. not (nat_eq d c))

abbrev pub non_space : ℕ → Bool
non_space c = not (is_space c)

abbrev fenced : String → Regex
fenced fence = seq (literal fence) (seq (many_lazy anything) (literal fence))

abbrev pub fenced_code : Regex
fenced_code = alt (fenced "```") (fenced "~~~")

abbrev pub inline_code : Regex
inline_code = seq (char b'`') (seq (many (other_than b'`')) (char b'`'))

abbrev pub url : Regex
url = seq boundary (
    seq (literal "http")
      (seq (optional (char b's')) (seq (literal "://") (some_of (chars non_space)))))

unfoldable pub strip_code : String → String
unfolding replace_all
strip_code text = replace_all inline_code " " (replace_all fenced_code " " text)

unfoldable pub strip_code_and_urls : String → String
unfolding strip_code
strip_code_and_urls text = replace_all url " " (strip_code text)
