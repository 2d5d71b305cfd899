-- ===== src/Auth/Page/Escape.antt =====
-- Proofs about the page and the code of server/src/auth/routes.ts.
use Prim.Native.Char.{Char, code}
use Prim.Native.String
use Prim.Native.String.{count}
use text.Mathlib.TextLemmas.{length-append, length-cons}
use bartleby.Prelude.{
  ℕ, zero, suc, ◌+◌, ◌%◌, ◌<◌, String, Bool, true, not, ◌&&◌, ◌≡◌, ◌||◌, refl, nat_eq, leb, arith,
  Bool-cases, inl, inr,
}
use bartleby.Text.{AllChars, take_text, drop_text}
use bartleby.Regex.Replace.{AllChars-append}
use bartleby.Auth.Page.{alphabet, char_at, letters, random_user_code, entity, escape_html}

-- A character that does not end an attribute or begin a tag.
abbrev pub is_inert : ℕ → Bool
is_inert c = not (nat_eq c b'<' || nat_eq c b'>' || nat_eq c 34 || nat_eq c 39)

-- The test, computed.
abbrev all_chars : (ℕ → Bool) → String → Bool
all_chars p String.[] = true
all_chars p (String.◌∷◌ c s) = p (code c) && all_chars p s

all_chars_lem : (p : ℕ → Bool) (s : String) → all_chars p s ≡ true → AllChars p s
all_chars_lem p String.[] e = tt
all_chars_lem p (String.◌∷◌ c s) e = (ground arith, all_chars_lem p s (ground arith))

entity-AllChars : (c : Char) → AllChars is_inert (entity c)
entity-AllChars c = elim (Bool-cases (nat_eq (code c) b'&')) [
  | inl e ↦ rw e (all_chars_lem is_inert "&amp;" refl)
  | inr a ↦ elim (Bool-cases (nat_eq (code c) b'<')) [
    | inl e ↦ rw (a, e) (all_chars_lem is_inert "&lt;" refl)
    | inr b ↦ elim (Bool-cases (nat_eq (code c) b'>')) [
      | inl e ↦ rw (a, b, e) (all_chars_lem is_inert "&gt;" refl)
      | inr d ↦ elim (Bool-cases (nat_eq (code c) 34)) [
        | inl e ↦ rw (a, b, d, e) (all_chars_lem is_inert "&quot;" refl)
        | inr f ↦ elim (Bool-cases (nat_eq (code c) 39)) [
          | inl e ↦ rw (a, b, d, f, e) (all_chars_lem is_inert "&#39;" refl)
          | inr g ↦ rw (a, b, d, f, g) (rw (b, d, f, g) refl, tt)
        ]
      ]
    ]
  ]
]

-- What the device page makes of a user code has no angle bracket and no quote of either kind.
pub escape_html-AllChars : (s : String) → AllChars is_inert (escape_html s)
unfolding escape_html
escape_html-AllChars String.[] = tt
escape_html-AllChars (String.◌∷◌ c s) =
    AllChars-append is_inert (entity c) (escape_html s) (entity-AllChars c) (escape_html-AllChars s)

one_char : (i : ℕ) (s : String) → i < count s → count (take_text 1 (drop_text i s)) ≡ 1
one_char i String.[] h = ground arith
one_char zero (String.◌∷◌ c s) h = length-cons c ""
one_char (suc i) (String.◌∷◌ c s) h = one_char i s (omega (arith, length-cons c s))

count-letters : (byte : ℕ → ℕ) (n : ℕ) → count (letters byte n) ≡ n
count-letters byte zero = refl
count-letters byte (suc n) =
    let i = byte n % 32 in
    let last : count (char_at i) ≡ 1 = one_char i alphabet (omega arith) in
    omega (arith, length-append (letters byte n) (char_at i), count-letters byte n, last)

-- A capital letter, a digit or the dash.
abbrev pub is_code_char : ℕ → Bool
is_code_char c = (leb b'A' c && leb c b'Z') || (leb b'2' c && leb c b'9') || nat_eq c b'-'

module _ (p : ℕ → Bool) where
  AllChars-take : (n : ℕ) (s : String) → AllChars p s → AllChars p (take_text n s)
  AllChars-take zero s h = tt
  AllChars-take (suc n) String.[] h = tt
  AllChars-take (suc n) (String.◌∷◌ c s) h = (h.0, AllChars-take n s h.1)

  AllChars-drop : (n : ℕ) (s : String) → AllChars p s → AllChars p (drop_text n s)
  AllChars-drop zero s h = h
  AllChars-drop (suc n) String.[] h = tt
  AllChars-drop (suc n) (String.◌∷◌ c s) h = AllChars-drop n s h.1

letters-AllChars : (byte : ℕ → ℕ) (n : ℕ) → AllChars is_code_char (letters byte n)
letters-AllChars byte zero = tt
letters-AllChars byte (suc n) =
    AllChars-append is_code_char (letters byte n) (char_at (byte n % 32)) (letters-AllChars byte n)
      (AllChars-take is_code_char 1 _ (
        AllChars-drop is_code_char (byte n % 32) alphabet
          (all_chars_lem is_code_char alphabet refl)))

count-take-drop : (n : ℕ) (s : String) → count (take_text n s) + count (drop_text n s) ≡ count s
count-take-drop zero s = omega arith
count-take-drop (suc n) String.[] = refl
count-take-drop (suc n) (String.◌∷◌ c s) =
    omega (arith, length-cons c (take_text n s), length-cons c s, count-take-drop n s)

-- A user code has nine characters, each a capital letter, a digit or a dash, whatever bytes are
-- drawn.
pub random_user_code-AllChars :
    (byte : ℕ → ℕ)
    → (count (random_user_code byte) ≡ 9) × AllChars is_code_char (random_user_code byte)
unfolding random_user_code
random_user_code-AllChars byte =
    let out = letters byte 8 in
    let good = letters-AllChars byte 8 in
    (
      omega (
        arith,
        length-append (take_text 4 out) (String.◌++◌ "-" (drop_text 4 out)),
        length-append "-" (drop_text 4 out),
        count-take-drop 4 out,
        count-letters byte 8,
      ),
      AllChars-append is_code_char (take_text 4 out) _ (AllChars-take is_code_char 4 out good) (
          AllChars-append is_code_char "-" (drop_text 4 out) (refl, tt)
            (AllChars-drop is_code_char 4 out good)),
    )
