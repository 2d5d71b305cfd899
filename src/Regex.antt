-- ===== src/Regex.antt =====
-- JavaScript's regular expressions, as far as the server writes them (server/src/derived,
-- server/src/import, server/src/export): greedy and lazy repetition with backtracking, captures and
-- anchors, `matchAll`, `exec` and `replace` with the flag g. Texts are texts of code points.
pub mod Enough
pub mod Sound
pub mod Reading
pub mod Hit
pub mod Replace
use Prim.Native.Char.{code}
use Prim.Native.String
use Prim.Native.String.{count}
use bartleby.Prelude.{
  ℕ, suc, zero, ◌+◌, ◌-◌, String, Bool, true, false, not, ◌&&◌, ◌||◌, Option, none, some, List, [],
  ◌∷◌, ◌++◌, ltb, leb, nat_eq, if◌then◌else◌, is_none, is_some,
}
use bartleby.Text.{take_text, drop_text, is_empty}

pub data Regex : Type 0 where
  chars : (ℕ → Bool) → Regex
  seq alt : Regex → Regex → Regex
  many many_lazy group : Regex → Regex
  start finish boundary nothing : Regex

-- A place in the text: the character before it, the text behind it, and what the groups that have
-- closed so far have captured.
pub record Cursor : Type 0 where
  pub before : Option ℕ
  pub rest : String
  pub groups : List String

abbrev pub Next : Type 0
Next = Cursor → Option Cursor

-- `[A-Za-z0-9_]`
abbrev pub is_digit : ℕ → Bool
is_digit c = leb 48 c && leb c 57

abbrev pub is_letter : ℕ → Bool
is_letter c = (leb 65 c && leb c 90) || (leb 97 c && leb c 122)

abbrev pub is_word : ℕ → Bool
is_word c = is_letter c || is_digit c || nat_eq c 95

abbrev is_word_before : Option ℕ → Bool
is_word_before none = false
is_word_before (some c) = is_word c

abbrev is_word_after : String → Bool
is_word_after String.[] = false
is_word_after (String.◌∷◌ c s) = is_word (code c)

abbrev xor : Bool → Bool → Bool
xor a b = if a then not b else b

-- What the three assertions ask of a place.
abbrev pub at_start : Cursor → Bool
at_start here = is_none here.before

abbrev pub at_finish : Cursor → Bool
at_finish here = is_empty here.rest

abbrev pub at_boundary : Cursor → Bool
at_boundary here = xor (is_word_before here.before) (is_word_after here.rest)

abbrev pub first : Option Cursor → Option Cursor → Option Cursor
first none other = other
first (some found) other = some found

abbrev pub step : (ℕ → Bool) → Option ℕ → String → List String → Next → Option Cursor
step p before String.[] groups next = none
step p before (String.◌∷◌ c s) groups next =
    if p (code c) then next (record { before = some (code c); rest = s; groups = groups }) else none

-- What was read between two places.
abbrev pub between : Cursor → Cursor → String
between from to = take_text (count from.rest - count to.rest) from.rest

abbrev pub capture : Cursor → Cursor → Cursor
capture from to = record to { groups = to.groups ++ between from to ∷ [] }

-- A repetition tries one more round only if the last one read something.
abbrev pub onward : Cursor → Next → Next
onward from next to = if ltb (count to.rest) (count from.rest) then next to else none

-- The fuel is the number of characters left, and each round reads one.
unfoldable pub greedy : (Cursor → Next → Option Cursor) → ℕ → Cursor → Next → Option Cursor
greedy round zero here next = next here
greedy round (suc fuel) here next =
    first (round here (onward here λ there. greedy round fuel there next)) (next here)

unfoldable pub lazy : (Cursor → Next → Option Cursor) → ℕ → Cursor → Next → Option Cursor
lazy round zero here next = next here
lazy round (suc fuel) here next =
    first (next here) (round here (onward here λ there. lazy round fuel there next))

-- The cursor that the first way to match `r` and then `next` ends at.
unfoldable pub match : Regex → Cursor → Next → Option Cursor
unfolding greedy lazy
match (chars p) here next = step p here.before here.rest here.groups next
match (seq r q) here next = match r here λ there. match q there next
match (alt r q) here next = first (match r here next) (match q here next)
match (many r) here next = greedy (λ from k. match r from k) (count here.rest) here next
match (many_lazy r) here next = lazy (λ from k. match r from k) (count here.rest) here next
match (group r) here next = match r here λ there. next (capture here there)
match start here next = if at_start here then next here else none
match finish here next = if at_finish here then next here else none
match boundary here next = if at_boundary here then next here else none
match nothing here next = next here

-- What `exec` and `matchAll` say of a match.
pub record Match : Type 0 where
  pub index : ℕ
  pub text : String
  pub groups : List String

abbrev pub found : ℕ → Cursor → Option Cursor → Option Match
found index here none = none
found index here (some there) =
    some (record { index = index; text = between here there; groups = there.groups })

unfoldable pub match_at : Regex → ℕ → Option ℕ → String → Option Match
unfolding match
match_at r index before text =
    let here : Cursor = record { before = before; rest = text; groups = [] } in
    found index here (match r here some)

abbrev pub put : Option Match → List Match → List Match
put none ms = ms
put (some m) ms = m ∷ ms

-- How many characters after the next one belong to the match.
abbrev pub skipped : Option Match → ℕ
skipped none = 0
skipped (some m) = count m.text - 1

unfoldable pub scan : Regex → ℕ → Option ℕ → ℕ → String → List Match
scan r index before zero String.[] = put (match_at r index before String.[]) []
scan r index before (suc skip) String.[] = []
scan r index before zero (String.◌∷◌ c s) =
    let m = match_at r index before (String.◌∷◌ c s) in
    let ms = scan r (suc index) (some (code c)) (skipped m) s in put m ms
scan r index before (suc skip) (String.◌∷◌ c s) = scan r (suc index) (some (code c)) skip s

-- `text.matchAll(r)`
unfoldable pub match_all : Regex → String → List Match
unfolding scan match_at
match_all r = scan r 0 none 0

abbrev head : List Match → Option Match
head [] = none
head (m ∷ ms) = some m

-- `r.exec(text)`, and `r.test(text)`
unfoldable pub exec : Regex → String → Option Match
unfolding match_all
exec r text = head (match_all r text)

unfoldable pub test : Regex → String → Bool
unfolding exec
test r text = is_some (exec r text)

abbrev swap : String → Option Match → String → String → String
swap by none kept rest = String.◌++◌ kept rest
swap by (some m) kept rest =
    String.◌++◌ by (if is_empty m.text then String.◌++◌ kept rest else rest)

replace_from : Regex → String → ℕ → Option ℕ → ℕ → String → String
unfolding match_at
replace_from r by index before zero String.[] =
    swap by (match_at r index before String.[]) String.[] String.[]
replace_from r by index before (suc skip) String.[] = String.[]
replace_from r by index before zero (String.◌∷◌ c s) =
    let m = match_at r index before (String.◌∷◌ c s) in
    let rest = replace_from r by (suc index) (some (code c)) (skipped m) s in
    swap by m (String.◌∷◌ c String.[]) rest
replace_from r by index before (suc skip) (String.◌∷◌ c s) =
    replace_from r by (suc index) (some (code c)) skip s

-- `text.replace(r, by)`, where `by` has no `$`
unfoldable pub replace_all : Regex → String → String → String
unfolding replace_from
replace_all r by = replace_from r by 0 none 0

cut_out : String → String → Option Match → String
cut_out by text none = text
cut_out by text (some m) =
    String.◌++◌ (take_text m.index text) (String.◌++◌ by (drop_text (m.index + count m.text) text))

-- `text.replace(r, by)`, without the flag g
unfoldable pub replace_first : Regex → String → String → String
unfolding cut_out exec
replace_first r by text = cut_out by text (exec r text)

-- The forms that are written with those: `r+`, `r?`, a character, and a text.
abbrev pub some_of : Regex → Regex
some_of r = seq r (many r)

abbrev pub optional : Regex → Regex
optional r = alt r nothing

abbrev pub char : ℕ → Regex
char c = chars (λ d. nat_eq d c)

abbrev pub literal : String → Regex
literal String.[] = nothing
literal (String.◌∷◌ c s) = seq (char (code c)) (literal s)
