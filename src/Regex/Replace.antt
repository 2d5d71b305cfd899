-- ===== src/Regex/Replace.antt =====
-- Proofs about `text.replace(r, by)` with the flag g (server/src/export/serializer.ts): which
-- characters it can leave.
use Prim.Native.Char.{Char, code}
use Prim.Native.String
use Prim.Native.String.{count}
use text.Mathlib.TextLemmas.{nil-append, cons-append}
use bartleby.Prelude.{
  ℕ, zero, suc, String, ◌≡◌, refl, sym, ap, ◌∙◌, Bool, true, false, not, Option, none, some, [],
  Bool-cases, inl, inr,
}
use bartleby.Text.{AllChars, is_empty}
use bartleby.Regex.{
  Regex, chars, many, some_of, Cursor, Next, first, greedy, match, between, found, match_at, Match,
  skipped, swap, replace_from, replace_all,
}
use bartleby.Regex.Sound.{Matches, match-IsSound}
use bartleby.Regex.Reading.{Matches-Reading, between_read}

pub AllChars-append :
    (p : ℕ → Bool) (s t : String) → AllChars p s → AllChars p t → AllChars p (String.◌++◌ s t)
AllChars-append p String.[] t h k = rw (nil-append t) k
AllChars-append p (String.◌∷◌ c s) t h k = rw (cons-append c s t) (h.0, AllChars-append p s t h.1 k)

module _ (p : ℕ → Bool) (r : Regex) (by : String) (fits : AllChars p by) where
  swap-AllChars :
      (o : Option Match) (kept rest : String)
      → AllChars p kept
      → AllChars p rest
      → AllChars p (swap by o kept rest)
  swap-AllChars none kept rest h k = AllChars-append p kept rest h k
  swap-AllChars (some m) kept rest h k =
      AllChars-append p by _ fits (elim (Bool-cases (is_empty m.text)) [
        | inl nothing ↦ rw nothing (AllChars-append p kept rest h k)
        | inr something ↦ rw something k
      ])

  replace_from-AllChars :
      (i : ℕ) (before : Option ℕ) (skip : ℕ) (s : String)
      → AllChars p s
      → AllChars p (replace_from r by i before skip s)
  unfolding replace_from
  replace_from-AllChars i before zero String.[] h =
      swap-AllChars (match_at r i before String.[]) String.[] String.[] tt tt
  replace_from-AllChars i before (suc skip) String.[] h = tt
  replace_from-AllChars i before zero (String.◌∷◌ c s) h =
      let m = match_at r i before (String.◌∷◌ c s) in
      swap-AllChars m (String.◌∷◌ c String.[])
        (replace_from r by (suc i) (some (code c)) (skipped m) s) (h.0, tt)
        (replace_from-AllChars (suc i) (some (code c)) (skipped m) s h.1)
  replace_from-AllChars i before (suc skip) (String.◌∷◌ c s) h =
      replace_from-AllChars (suc i) (some (code c)) skip s h.1

  -- What all characters satisfied, they still do, if those that are put in do.
  pub replace_all-AllChars : (s : String) → AllChars p s → AllChars p (replace_all r by s)
  unfolding replace_all
  replace_all-AllChars s h = replace_from-AllChars 0 none 0 s h

greedy-some :
    (round : Cursor → Next → Option Cursor) (fuel : ℕ) (here : Cursor)
    → (out : Cursor) × (greedy round fuel here some ≡ some out)
unfolding greedy
greedy-some round zero here = (here, refl)
greedy-some round (suc fuel) here = first_some _ here
  where
    first_some :
        (o : Option Cursor) (other : Cursor) → (out : Cursor) × (first o (some other) ≡ some out)
    first_some none other = (other, refl)
    first_some (some c) other = (c, refl)

-- Where a character of the class stands, a run of the class is found.
module _ (p : ℕ → Bool) where
  run_found :
      (i : ℕ) (before : Option ℕ) (c : Char) (s : String)
      → p (code c) ≡ true
      → (m : Match) × (match_at (some_of (chars p)) i before (String.◌∷◌ c s) ≡ some m)
        × (is_empty m.text ≡ false)
  unfolding match_at match Matches
  run_found i before c s e =
      let here : Cursor = record { before = before; rest = String.◌∷◌ c s; groups = [] } in
      let mid : Cursor = record { before = some (code c); rest = s; groups = [] } in
      let (out, run) = greedy-some (match (chars p)) (count s) mid in
      let whole : match (some_of (chars p)) here some ≡ some out = rw e run in
      let (stop, (after, reads, more), done) =
        match-IsSound (some_of (chars p)) here some out whole in
      let (t, f) = Matches-Reading (many (chars p)) after stop more in
      let same : stop ≡ out = cc in
      let read : between here stop ≡ String.◌∷◌ reads.char t =
        between_read here stop (String.◌∷◌ reads.char t)
          (reads.text ∙ ap (String.◌∷◌ reads.char) f ∙ sym (cons-append reads.char t stop.rest)) in
      (
        record { index = i; text = between here out; groups = out.groups },
        ap (found i here) whole,
        rw (← same, read) refl,
      )

  module _ (by : String) (fits : AllChars (λ c. not (p c)) by) where
    replace_from_run :
        (i : ℕ) (before : Option ℕ) (skip : ℕ) (s : String)
        → AllChars (λ c. not (p c)) (replace_from (some_of (chars p)) by i before skip s)
    unfolding replace_from
    replace_from_run i before zero String.[] =
        swap-AllChars (λ c. not (p c)) (some_of (chars p)) by fits
          (match_at (some_of (chars p)) i before String.[]) String.[] String.[] tt tt
    replace_from_run i before (suc skip) String.[] = tt
    replace_from_run i before zero (String.◌∷◌ c s) =
        let m = match_at (some_of (chars p)) i before (String.◌∷◌ c s) in
        elim (Bool-cases (p (code c))) [
          | inl member ↦
              let (run, there, more) = run_found i before c s member in
              let rest =
                replace_from (some_of (chars p)) by (suc i) (some (code c)) (skipped (some run))
                  s in
              rw there (
                rw more (
                  AllChars-append (λ c. not (p c)) by rest fits
                    (replace_from_run (suc i) (some (code c)) (skipped (some run)) s)))
          | inr other ↦
              swap-AllChars (λ c. not (p c)) (some_of (chars p)) by fits m (String.◌∷◌ c String.[])
                (replace_from (some_of (chars p)) by (suc i) (some (code c)) (skipped m) s)
                (rw other refl, tt) (replace_from_run (suc i) (some (code c)) (skipped m) s)
        ]
    replace_from_run i before (suc skip) (String.◌∷◌ c s) =
        replace_from_run (suc i) (some (code c)) skip s

    -- No character of the class is left, if none is put in.
    pub replace_all_run :
        (s : String) → AllChars (λ c. not (p c)) (replace_all (some_of (chars p)) by s)
    unfolding replace_all
    replace_all_run s = replace_from_run 0 none 0 s
