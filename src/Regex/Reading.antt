-- ===== src/Regex/Reading.antt =====
-- Proofs about the texts that the regular expressions of server/src read.
use Prim.Native.String
use Prim.Native.String.{count}
use text.Mathlib.TextEquality.{Char-path}
use text.Mathlib.TextLemmas.{nil-append, cons-append, length-cons, append_assoc, length-append}
use bartleby.Prelude.{◌-◌, String, ◌≡◌, refl, sym, ap, ◌∙◌, arith, inl, inr}
use bartleby.Text.{take_text, drop_text}
use bartleby.Regex.{
  Regex, chars, seq, alt, many, many_lazy, group, start, finish, boundary, nothing, literal, Cursor,
  between,
}
use bartleby.Regex.Sound.{Star, stop, again, Matches}

pub take-append : (t s : String) → take_text (count t) (String.◌++◌ t s) ≡ t
take-append String.[] s = refl
take-append (String.◌∷◌ c t) s =
    rw (length-cons c t, cons-append c t s) (ap (String.◌∷◌ c) (take-append t s))

pub drop-append : (t s : String) → drop_text (count t) (String.◌++◌ t s) ≡ s
drop-append String.[] s = nil-append s
drop-append (String.◌∷◌ c t) s = rw (length-cons c t, cons-append c t s) (drop-append t s)

-- What was read, in front of what is left.
abbrev pub Reading : Cursor → Cursor → Type 0
Reading from to = (read : String) × (from.rest ≡ String.◌++◌ read to.rest)

nothing_read : (here : Cursor) → Reading here here
nothing_read here = (String.[], sym (nil-append here.rest))

both_read : (a b c : Cursor) → Reading a b → Reading b c → Reading a c
both_read a b c (s, e) (t, f) = (String.◌++◌ s t, rw (e, f) (sym (append_assoc s t c.rest)))

star-Reading :
    (R : Cursor → Cursor → Type 0) (each : (a b : Cursor) → R a b → Reading a b) {a b : Cursor}
    → Star R a b
    → Reading a b
star-Reading R each (stop {a}) = nothing_read a
star-Reading R each (again {a} {b} {c} r more) =
    both_read a b c (each a b r) (star-Reading R each more)

stay : (P : Type 0) (a b : Cursor) → P × (a ≡ b) → Reading a b
stay P a b (p, e) = rw (← e) (nothing_read a)

pub Matches-Reading : (r : Regex) (a b : Cursor) → Matches r a b → Reading a b
unfolding Matches
Matches-Reading (chars p) a b m = (
  String.◌∷◌ m.char String.[],
  m.text ∙ sym (cons-append m.char String.[] b.rest ∙ ap (String.◌∷◌ m.char) (nil-append b.rest)),
)
Matches-Reading (seq r q) a b (mid, front, back) =
    both_read a mid b (Matches-Reading r a mid front) (Matches-Reading q mid b back)
Matches-Reading (alt r q) a b (inl m) = Matches-Reading r a b m
Matches-Reading (alt r q) a b (inr m) = Matches-Reading q a b m
Matches-Reading (many r) a b m = star-Reading (Matches r) (Matches-Reading r) m
Matches-Reading (many_lazy r) a b m = star-Reading (Matches r) (Matches-Reading r) m
Matches-Reading (group r) a b (mid, m, e) =
    let (read, f) = Matches-Reading r a mid m in (read, rw (← e) f)
Matches-Reading start a b m = stay _ a b m
Matches-Reading finish a b m = stay _ a b m
Matches-Reading boundary a b m = stay _ a b m
Matches-Reading nothing a b e = rw (← e) (nothing_read a)

-- What `between` gives is what was read.
pub between_read :
    (a b : Cursor) (read : String) → a.rest ≡ String.◌++◌ read b.rest → between a b ≡ read
between_read a b read e =
    let size : count a.rest - count b.rest ≡ count read =
      rw (e, length-append read b.rest) (omega arith) in
    rw (size, e) (take-append read b.rest)

-- Without groups, a match captures nothing.
unfoldable pub IsPlain : Regex → Type 0
IsPlain (seq r q) = IsPlain r × IsPlain q
IsPlain (alt r q) = IsPlain r × IsPlain q
IsPlain (many r) = IsPlain r
IsPlain (many_lazy r) = IsPlain r
IsPlain (group r) = ⊥
IsPlain r = Unit

star_groups :
    (R : Cursor → Cursor → Type 0) (each : (a b : Cursor) → R a b → b.groups ≡ a.groups)
    {a b : Cursor}
    → Star R a b
    → b.groups ≡ a.groups
star_groups R each stop = refl
star_groups R each (again {a} {b} {c} r more) = star_groups R each more ∙ each a b r

pub IsPlain-groups : (r : Regex) (a b : Cursor) → IsPlain r → Matches r a b → b.groups ≡ a.groups
unfolding Matches IsPlain
IsPlain-groups (chars p) a b h m = m.groups
IsPlain-groups (seq r q) a b h (mid, front, back) =
    IsPlain-groups q mid b h.1 back ∙ IsPlain-groups r a mid h.0 front
IsPlain-groups (alt r q) a b h (inl m) = IsPlain-groups r a b h.0 m
IsPlain-groups (alt r q) a b h (inr m) = IsPlain-groups q a b h.1 m
IsPlain-groups (many r) a b h m = star_groups (Matches r) (λ a b. IsPlain-groups r a b h) m
IsPlain-groups (many_lazy r) a b h m = star_groups (Matches r) (λ a b. IsPlain-groups r a b h) m
IsPlain-groups (group r) a b h m = absurd h
IsPlain-groups start a b h (p, e) = ap (λ c. c.groups) (sym e)
IsPlain-groups finish a b h (p, e) = ap (λ c. c.groups) (sym e)
IsPlain-groups boundary a b h (p, e) = ap (λ c. c.groups) (sym e)
IsPlain-groups nothing a b h e = ap (λ c. c.groups) (sym e)

-- A literal is read as it stands.
pub literal-Reading :
    (t : String) (a b : Cursor)
    → Matches (literal t) a b
    → (a.rest ≡ String.◌++◌ t b.rest) × (b.groups ≡ a.groups)
unfolding Matches
literal-Reading String.[] a b e = rw (← e) (sym (nil-append a.rest), refl)
literal-Reading (String.◌∷◌ c t) a b (mid, front, back) =
    let (e, g) = literal-Reading t mid b back in
    let same : front.char ≡ c = Char-path front.char c (ground (arith, front.passes)) in
    (rw (front.text, same, e) (sym (cons-append c t b.rest)), g ∙ front.groups)
