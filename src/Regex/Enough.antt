-- ===== src/Regex/Enough.antt =====
-- Proofs about repetition in the regular expressions that server/src writes: the fuel.
use mathlib.Core.Path.{fun_ext}
use Prim.Native.String.{count}
use bartleby.Prelude.{
  ℕ, zero, suc, ◌≤◌, ◌≡◌, ◌∙◌, refl, ap, leb, String, List, Bool, true, Option, none, some, arith,
  ltb, Bool-cases, inl, inr, if◌then◌else◌,
}
use bartleby.Regex.{
  Regex, chars, seq, alt, many, many_lazy, group, start, finish, boundary, nothing, Cursor, Next,
  first, onward, greedy, lazy, match, step, at_start, at_finish, at_boundary,
}

abbrev never : Next
never there = none

-- A matcher that fails where everything that could follow fails.
abbrev IsStrict : (Cursor → Next → Option Cursor) → Type 0
IsStrict round = (here : Cursor) → round here never ≡ none

-- Nothing comes onward where all fail behind, or where nothing is left to read.
onward-never : (here : Cursor) → onward here never ≡ never
onward-never here = fun_ext λ there. ground arith

onward_at_end : (here : Cursor) (next : Next) → count here.rest ≤ 0 → onward here next ≡ never
onward_at_end here next small = fun_ext λ there. ground arith

onward_same :
    (here : Cursor) (next other : Next)
    → ((there : Cursor)
        → ltb (count there.rest) (count here.rest) ≡ true
        → next there ≡ other there)
    → onward here next ≡ onward here other
onward_same here next other same = fun_ext λ there.
    elim (Bool-cases (ltb (count there.rest) (count here.rest))) [
      | inl less ↦ rw (less, same there less) refl
      | inr stuck ↦ rw stuck refl
    ]

first-none : (found : Option Cursor) → first found none ≡ found
first-none none = refl
first-none (some out) = refl

module _ (round : Cursor → Next → Option Cursor) (strict : IsStrict round) where
  greedy-IsStrict : (fuel : ℕ) → IsStrict (greedy round fuel)
  unfolding greedy
  greedy-IsStrict zero here = refl
  greedy-IsStrict (suc fuel) here =
      rw (fun_ext (greedy-IsStrict fuel), onward-never here, strict here) refl

  lazy-IsStrict : (fuel : ℕ) → IsStrict (lazy round fuel)
  unfolding lazy
  lazy-IsStrict zero here = refl
  lazy-IsStrict (suc fuel) here =
      rw (fun_ext (lazy-IsStrict fuel), onward-never here, strict here) refl

  greedy_once_more :
      (fuel : ℕ) (here : Cursor) (next : Next)
      → count here.rest ≤ fuel
      → greedy round (suc fuel) here next ≡ greedy round fuel here next
  unfolding greedy
  greedy_once_more zero here next small =
      rw (onward_at_end here (λ there. next there) small, strict here) refl
  greedy_once_more (suc fuel) here next small =
      rw (onward_same here _ _ (λ there less. greedy_once_more fuel there next (ground arith))) refl

  lazy_once_more :
      (fuel : ℕ) (here : Cursor) (next : Next)
      → count here.rest ≤ fuel
      → lazy round (suc fuel) here next ≡ lazy round fuel here next
  unfolding lazy
  lazy_once_more zero here next small =
      rw (onward_at_end here (λ there. next there) small, strict here) (first-none (next here))
  lazy_once_more (suc fuel) here next small =
      rw (onward_same here _ _ (λ there less. lazy_once_more fuel there next (ground arith))) refl

  greedy_enough :
      (fuel : ℕ) (here : Cursor) (next : Next)
      → count here.rest ≤ fuel
      → greedy round fuel here next ≡ greedy round (count here.rest) here next
  greedy_enough zero here next enough = ap (λ n. greedy round n here next) (omega (arith, enough))
  greedy_enough (suc fuel) here next enough = elim (Bool-cases (leb (count here.rest) fuel)) [
    | inl fewer ↦
        greedy_once_more fuel here next (ground arith) ∙ greedy_enough fuel here next (ground arith)
    | inr full ↦ ap (λ n. greedy round n here next) (ground arith)
  ]

  lazy_enough :
      (fuel : ℕ) (here : Cursor) (next : Next)
      → count here.rest ≤ fuel
      → lazy round fuel here next ≡ lazy round (count here.rest) here next
  lazy_enough zero here next enough = ap (λ n. lazy round n here next) (omega (arith, enough))
  lazy_enough (suc fuel) here next enough = elim (Bool-cases (leb (count here.rest) fuel)) [
    | inl fewer ↦
        lazy_once_more fuel here next (ground arith) ∙ lazy_enough fuel here next (ground arith)
    | inr full ↦ ap (λ n. lazy round n here next) (ground arith)
  ]

step-IsStrict :
    (p : ℕ → Bool) (before : Option ℕ) (rest : String) (groups : List String)
    → step p before rest groups never ≡ none
step-IsStrict p before String.[] groups = refl
step-IsStrict p before (String.◌∷◌ c s) groups = ground arith

guard_never : (t : Bool) (here : Cursor) → (if t then never here else none) ≡ none
guard_never t here = ground arith

match-IsStrict : (r : Regex) → IsStrict (match r)
unfolding match
match-IsStrict (chars p) here = step-IsStrict p here.before here.rest here.groups
match-IsStrict (seq r q) here = rw (fun_ext (match-IsStrict q)) (match-IsStrict r here)
match-IsStrict (alt r q) here = rw (match-IsStrict r here, match-IsStrict q here) refl
match-IsStrict (many r) here = greedy-IsStrict (match r) (match-IsStrict r) _ here
match-IsStrict (many_lazy r) here = lazy-IsStrict (match r) (match-IsStrict r) _ here
match-IsStrict (group r) here = match-IsStrict r here
match-IsStrict start here = guard_never (at_start here) here
match-IsStrict finish here = guard_never (at_finish here) here
match-IsStrict boundary here = guard_never (at_boundary here) here
match-IsStrict nothing here = refl

-- A repetition has fuel enough: with as many rounds as there are characters left, or any number more,
-- both kinds of repetition of any expression find the same.
pub match_enough :
    (r : Regex) (fuel : ℕ) (here : Cursor) (next : Next)
    → count here.rest ≤ fuel
    → (greedy (match r) fuel here next ≡ match (many r) here next)
      × (lazy (match r) fuel here next ≡ match (many_lazy r) here next)
unfolding match
match_enough r fuel here next enough = (
  greedy_enough (match r) (match-IsStrict r) fuel here next enough,
  lazy_enough (match r) (match-IsStrict r) fuel here next enough,
)
