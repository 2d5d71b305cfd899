-- ===== src/Export/Serializer/Slug.antt =====
-- Proofs about the names of exported files (server/src/export/serializer.ts).
use Prim.Native.Char.{Char, code}
use bartleby.Prelude.{
  ℕ, String, ◌≡◌, refl, Bool, true, false, not, ◌||◌, nat_eq, arith, Bool-cases, inl, inr,
}
use bartleby.Text.{AllChars, is_empty, is_space}
use bartleby.Regex.{chars, some_of, is_letter, is_digit, replace_all}
use bartleby.Regex.Replace.{replace_all-AllChars, replace_all_run}
use bartleby.Export.Serializer.{dashes, outer_dashes, is_dropped, is_gap, base, slugify}

AllChars-map :
    (p q : ℕ → Bool) (s : String)
    → ((c : Char) → p (code c) ≡ true → q (code c) ≡ true)
    → AllChars p s
    → AllChars q s
AllChars-map p q String.[] f h = tt
AllChars-map p q (String.◌∷◌ c s) f h = (f c h.0, AllChars-map p q s f h.1)

AllChars-both :
    (p q r : ℕ → Bool) (s : String)
    → ((c : Char) → p (code c) ≡ true → q (code c) ≡ true → r (code c) ≡ true)
    → AllChars p s
    → AllChars q s
    → AllChars r s
AllChars-both p q r String.[] f h k = tt
AllChars-both p q r (String.◌∷◌ c s) f h k = (f c h.0 k.0, AllChars-both p q r s f h.1 k.1)

letter_or_dash :
    (letter digit under space dash : Bool)
    → not (not ((letter || digit || under) || space || dash)) ≡ true
    → not (space || under) ≡ true
    → (letter || digit || dash) ≡ true
letter_or_dash letter digit under space dash kept gapless = ground arith

-- `[A-Za-z0-9-]`
abbrev pub is_slug_char : ℕ → Bool
is_slug_char c = is_letter c || is_digit c || nat_eq c b'-'

module _ (lower : String → String) where
  base-AllChars : (title : String) → AllChars is_slug_char (base lower title)
  unfolding base is_space
  base-AllChars title =
      let cleaned = replace_all_run is_dropped "" tt (lower title) in
      let kept =
        replace_all-AllChars (λ c. not (is_dropped c)) (some_of (chars is_gap)) "-" (refl, tt) _
          cleaned in
      let gapless =
        replace_all_run is_gap "-" (refl, tt)
          (replace_all (some_of (chars is_dropped)) "" (lower title)) in
      let slug =
        AllChars-both (λ c. not (is_dropped c)) (λ c. not (is_gap c)) is_slug_char _
          (λ c h k.
            letter_or_dash (is_letter (code c)) (is_digit (code c)) (nat_eq (code c) b'_')
              (is_space (code c)) (nat_eq (code c) b'-') h k)
          kept gapless in
      replace_all-AllChars is_slug_char outer_dashes "" tt _
        (replace_all-AllChars is_slug_char dashes "-" (refl, tt) _ slug)

  -- The name that an export gives a note's file is not empty and has only ASCII letters, digits and
  -- dashes, whatever the title and whatever lower case is.
  pub slugify-AllChars :
      (title : String)
      → AllChars is_slug_char (slugify lower title) × (is_empty (slugify lower title) ≡ false)
  unfolding slugify
  slugify-AllChars title = elim (Bool-cases (is_empty (base lower title))) [
    | inl blank ↦
        rw blank ((refl, (refl, (refl, (refl, (refl, (refl, (refl, (refl, tt)))))))), refl)
    | inr named ↦ rw named (base-AllChars title, named)
  ]
