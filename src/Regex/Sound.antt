-- ===== src/Regex/Sound.antt =====
-- What a regular expression of server/src means: the pairs of places between which it matches.
use Prim.Native.Char.{Char, code}
use bartleby.Prelude.{
  ℕ, zero, suc, String, List, ◌≡◌, refl, Bool, true, Option, none, some, arith, inl, inr, ◌⊎◌,
  if◌then◌else◌,
}
use bartleby.Regex.{
  Regex, chars, seq, alt, many, many_lazy, group, start, finish, boundary, nothing, Cursor, Next,
  first, onward, greedy, lazy, match, step, capture, at_start, at_finish, at_boundary,
}

-- Round after round.
pub data Star (R : Cursor → Cursor → Type 0) : Cursor → Cursor → Type 0 where
  stop : {a : Cursor} → Star R a a
  again : {a b c : Cursor} → R a b → Star R b c → Star R a c

-- The character that was read.
pub record Reads (p : ℕ → Bool) (from to : Cursor) : Type 0 where
  pub char : Char
  pub text : from.rest ≡ String.◌∷◌ char to.rest
  pub passes : p (code char) ≡ true
  pub before : to.before ≡ some (code char)
  pub groups : to.groups ≡ from.groups

unfoldable pub Matches : Regex → Cursor → Cursor → Type 0
Matches (chars p) from to = Reads p from to
Matches (seq r q) from to = (mid : Cursor) × Matches r from mid × Matches q mid to
Matches (alt r q) from to = Matches r from to ⊎ Matches q from to
Matches (many r) from to = Star (λ a b. Matches r a b) from to
Matches (many_lazy r) from to = Star (λ a b. Matches r a b) from to
Matches (group r) from to = (mid : Cursor) × Matches r from mid × (capture from mid ≡ to)
Matches start from to = (at_start from ≡ true) × (from ≡ to)
Matches finish from to = (at_finish from ≡ true) × (from ≡ to)
Matches boundary from to = (at_boundary from ≡ true) × (from ≡ to)
Matches nothing from to = from ≡ to

first_inv :
    (x y : Option Cursor) (out : Cursor) → first x y ≡ some out → (x ≡ some out) ⊎ (y ≡ some out)
first_inv none y out e = inr e
first_inv (some found) y out e = inl e

guard_inv :
    (t : Bool) (x : Option Cursor) (out : Cursor)
    → (if t then x else none) ≡ some out
    → (t ≡ true) × (x ≡ some out)
guard_inv t x out e = ground arith

-- What a matcher finds is a match, followed by what `next` finds.
abbrev Finds : (Cursor → Cursor → Type 0) → Cursor → Next → Cursor → Type 0
Finds R here next out = (there : Cursor) × R here there × (next there ≡ some out)

abbrev IsSound : (Cursor → Cursor → Type 0) → (Cursor → Next → Option Cursor) → Type 0
IsSound R round =
    (here : Cursor) (next : Next) (out : Cursor)
    → round here next ≡ some out
    → Finds R here next out

module _ (R : Cursor → Cursor → Type 0) (round : Cursor → Next → Option Cursor)
    (sound : IsSound R round) where
  one_more :
      (more : Cursor → Next → Option Cursor)
      → IsSound (Star R) more
      → (here : Cursor) (next : Next) (out : Cursor)
      → round here (onward here λ there. more there next) ≡ some out
      → Finds (Star R) here next out
  one_more more good here next out e =
      let (mid, first_round, e') = sound here _ out e in
      let (_, e'') = guard_inv _ _ out e' in
      let (there, rest, done) = good mid next out e'' in (there, again first_round rest, done)

  greedy-IsSound : (fuel : ℕ) → IsSound (Star R) (greedy round fuel)
  unfolding greedy
  greedy-IsSound zero here next out e = (here, stop, e)
  greedy-IsSound (suc fuel) here next out e = elim (first_inv _ _ out e) [
    | inl found ↦ one_more (greedy round fuel) (greedy-IsSound fuel) here next out found
    | inr found ↦ (here, stop, found)
  ]

  lazy-IsSound : (fuel : ℕ) → IsSound (Star R) (lazy round fuel)
  unfolding lazy
  lazy-IsSound zero here next out e = (here, stop, e)
  lazy-IsSound (suc fuel) here next out e = elim (first_inv _ _ out e) [
    | inl found ↦ (here, stop, found)
    | inr found ↦ one_more (lazy round fuel) (lazy-IsSound fuel) here next out found
  ]

step-IsSound :
    (p : ℕ → Bool) (before : Option ℕ) (rest : String) (groups : List String) (next : Next)
    (out : Cursor)
    → step p before rest groups next ≡ some out
    → Finds (Reads p) (record { before = before; rest = rest; groups = groups }) next out
step-IsSound p before String.[] groups next out e = cc
step-IsSound p before (String.◌∷◌ c s) groups next out e =
    let (passes, found) = guard_inv _ _ out e in
    (
      record { before = some (code c); rest = s; groups = groups },
      record { char = c; text = refl; passes = passes; before = refl; groups = refl },
      found,
    )

asserted :
    (t : Bool) (here : Cursor) (next : Next) (out : Cursor)
    → (if t then next here else none) ≡ some out
    → Finds (λ from to. (t ≡ true) × (from ≡ to)) here next out
asserted t here next out e =
    let (holds, found) = guard_inv t (next here) out e in (here, (holds, refl), found)

-- Where the matcher of an expression `r` succeeds, there is a place up to which `r` matches and from
-- which what follows `r` succeeds with the same result.
pub match-IsSound : (r : Regex) → IsSound (Matches r) (match r)
unfolding match Matches
match-IsSound (chars p) here next out e =
    step-IsSound p here.before here.rest here.groups next out e
match-IsSound (seq r q) here next out e =
    let (mid, front, e') = match-IsSound r here _ out e in
    let (there, back, done) = match-IsSound q mid next out e' in (there, (mid, front, back), done)
match-IsSound (alt r q) here next out e = elim (first_inv _ _ out e) [
  | inl found ↦ let (there, m, done) = match-IsSound r here next out found in (there, inl m, done)
  | inr found ↦ let (there, m, done) = match-IsSound q here next out found in (there, inr m, done)
]
match-IsSound (many r) here next out e =
    greedy-IsSound (Matches r) (match r) (match-IsSound r) _ here next out e
match-IsSound (many_lazy r) here next out e =
    lazy-IsSound (Matches r) (match r) (match-IsSound r) _ here next out e
match-IsSound (group r) here next out e =
    let (mid, m, done) = match-IsSound r here _ out e in (capture here mid, (mid, m, refl), done)
match-IsSound start here next out e = asserted (at_start here) here next out e
match-IsSound finish here next out e = asserted (at_finish here) here next out e
match-IsSound boundary here next out e = asserted (at_boundary here) here next out e
match-IsSound nothing here next out e = (here, refl, e)
