-- ===== src/Derived/Emails.antt =====
-- server/src/derived/mentions.ts
use bartleby.Prelude.{ℕ, String, Bool, ◌||◌, List, [], ◌∷◌, ◌++◌, nat_eq, contains, if◌then◌else◌}
use bartleby.Text.{is_space}
use bartleby.Regex.{
  Regex, chars, seq, alt, many, group, start, char, some_of, is_letter, is_digit, Match, match_all,
}
use bartleby.Derived.Tags.{captured}

abbrev is_alphanumeric : ℕ → Bool
is_alphanumeric c = is_letter c || is_digit c

-- `[a-zA-Z0-9._%+-]`, `[a-zA-Z0-9-]`
abbrev pub is_local : ℕ → Bool
is_local c =
    is_alphanumeric c
    || nat_eq c b'.'
    || nat_eq c b'_'
    || nat_eq c b'%'
    || nat_eq c b'+'
    || nat_eq c b'-'

abbrev is_host : ℕ → Bool
is_host c = is_alphanumeric c || nat_eq c b'-'

-- `\.[a-zA-Z]{2,}`
abbrev pub top_level : Regex
top_level = seq (char b'.') (seq (chars is_letter) (seq (chars is_letter) (many (chars is_letter))))

abbrev email : Regex
email = seq (some_of (chars is_local)) (
    seq (char b'@') (
      seq (some_of (chars is_host))
        (seq (many (seq (char b'.') (some_of (chars is_host)))) top_level)))

abbrev pub mention_regex : Regex
mention_regex = seq (alt start (chars is_space)) (seq (char b'@') (group email))

-- `out.add(…)`
add_email : String → List String → List String
add_email email out = if contains email out then out else out ++ email ∷ []

module _ (to_lower_case : String → String) where
  unfoldable pub add_emails : List Match → List String → List String
  unfolding add_email
  add_emails [] out = out
  add_emails (m ∷ ms) out = add_emails ms (add_email (to_lower_case (captured m)) out)

  unfoldable pub extract_mention_emails : String → List String
  unfolding add_emails match_all
  extract_mention_emails markdown = add_emails (match_all mention_regex markdown) []
