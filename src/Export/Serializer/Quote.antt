-- ===== src/Export/Serializer/Quote.antt =====
-- Proofs about `quote` (server/src/export/serializer.ts) and a reader of what it writes.
use Prim.Native.Char.{Char, code}
use Prim.Native.String
use text.Mathlib.TextEquality.{Char-path}
use text.Mathlib.TextLemmas.{nil-append, cons-append, append_assoc}
use bartleby.Prelude.{
  String, true, false, ◌≡◌, refl, sym, ap, ◌∙◌, ◌||◌, Option, none, some, nat_eq, arith, Bool-cases,
  inl, inr, if◌then◌else◌,
}
use bartleby.Text.{is_empty}
use bartleby.Export.Serializer.{has_special, substitute, quote}

abbrev grow : Char → Option String → Option String
grow c none = none
grow c (some s) = some (String.◌∷◌ c s)

-- What stands between double quotes, up to the closing one, which must be the last character. A
-- backslash makes the next character stand for itself.
pub read_escaped : String → Option String
read_escaped String.[] = none
read_escaped (String.◌∷◌ c String.[]) = if nat_eq (code c) 34 then some "" else none
read_escaped (String.◌∷◌ c (String.◌∷◌ d s)) =
    let escaped = grow d (read_escaped s) in
    let as_is = grow c (read_escaped (String.◌∷◌ d s)) in
    if nat_eq (code c) 34 then none else if nat_eq (code c) 92 then escaped else as_is

-- A scalar that is quoted, or one that is not.
pub read_scalar : String → Option String
unfolding read_escaped
read_scalar String.[] = some ""
read_scalar (String.◌∷◌ c s) = if nat_eq (code c) 34 then read_escaped s else some (String.◌∷◌ c s)

abbrev escape : String → String
escape s = substitute 34 "\\\"" (substitute 92 "\\\\" s)

-- The escape of one character.
abbrev one : Char → String
unfolding substitute
one c =
    if nat_eq (code c) 34 then "\\\"" else if nat_eq (code c) 92 then "\\\\" else String.◌∷◌ c ""

-- Two characters in front of a text.
two_append :
    (c d : Char) (s : String)
    → String.◌++◌ (String.◌∷◌ c (String.◌∷◌ d "")) s ≡ String.◌∷◌ c (String.◌∷◌ d s)
two_append c d s =
    cons-append c (String.◌∷◌ d "") s
    ∙ ap (String.◌∷◌ c) (cons-append d "" s ∙ ap (String.◌∷◌ d) (nil-append s))

one_append : (c : Char) (s : String) → String.◌++◌ (String.◌∷◌ c "") s ≡ String.◌∷◌ c s
one_append c s = cons-append c "" s ∙ ap (String.◌∷◌ c) (nil-append s)

escape_cons : (c : Char) (s : String) → escape (String.◌∷◌ c s) ≡ String.◌++◌ (one c) (escape s)
unfolding substitute
escape_cons c s = elim (Bool-cases (nat_eq (code c) 92)) [
  | inl backslash ↦
      let other : nat_eq (code c) 34 ≡ false = ground arith in
      rw (backslash, other, two_append "\\" "\\" (substitute 92 "\\\\" s))
        (sym (append_assoc "\\" "\\" (escape s)))
  | inr other ↦ rw (other, one_append c (substitute 92 "\\\\" s)) refl
]

read_plain :
    (c : Char) (s t : String)
    → nat_eq (code c) 34 ≡ false
    → nat_eq (code c) 92 ≡ false
    → read_escaped t ≡ some s
    → read_escaped (String.◌∷◌ c t) ≡ some (String.◌∷◌ c s)
unfolding read_escaped
read_plain c s String.[] e f h = cc
read_plain c s (String.◌∷◌ d t) e f h = rw (e, f, h) refl

-- The character whose code is tested.
same_char : (c d : Char) → nat_eq (code c) (code d) ≡ true → c ≡ d
same_char c d e = Char-path c d (ground (arith, e))

read_escaped-escape : (s : String) → read_escaped (String.◌++◌ (escape s) "\"") ≡ some s
unfolding read_escaped substitute
read_escaped-escape String.[] = refl
read_escaped-escape (String.◌∷◌ c s) =
    let rest = String.◌++◌ (escape s) "\"" in
    rw (escape_cons c s, append_assoc (one c) (escape s) "\"")
      (elim (Bool-cases (nat_eq (code c) 34)) [
        | inl mark ↦
            rw (mark, two_append "\\" "\"" rest, read_escaped-escape s, same_char c "\"" mark) refl
        | inr not_mark ↦ elim (Bool-cases (nat_eq (code c) 92)) [
          | inl slash ↦
              rw
                (
                  not_mark,
                  slash,
                  two_append "\\" "\\" rest,
                  read_escaped-escape s,
                  same_char c "\\" slash,
                )
                refl
          | inr plain ↦
              rw (not_mark, plain, one_append c rest)
                (read_plain c s rest not_mark plain (read_escaped-escape s))
        ]
      ])

-- A text without special characters does not begin with a quote.
read_unquoted : (s : String) → has_special s ≡ false → read_scalar s ≡ some s
unfolding read_scalar
read_unquoted String.[] e = refl
read_unquoted (String.◌∷◌ c s) e =
    let plain : nat_eq (code c) 34 ≡ false = ground arith in rw plain refl

-- Every text, quoted for the frontmatter, is read back by a reader that takes what stands between
-- double quotes, a backslash followed by a character as that character, and a scalar that does not
-- begin with a double quote as it stands.
pub read_scalar-quote : (s : String) → read_scalar (quote s) ≡ some s
unfolding quote read_scalar
read_scalar-quote s = elim (Bool-cases (has_special s || is_empty s)) [
  | inl special ↦
      rw special (rw (one_append "\"" (String.◌++◌ (escape s) "\"")) (read_escaped-escape s))
  | inr plain ↦ rw plain (read_unquoted s (ground arith))
]
