-- ===== src/Regex/Hit.antt =====
-- Proofs about the matches that `matchAll` gives for the regular expressions of server/src.
use Prim.Native.Char.{Char, code}
use text.Mathlib.TextLemmas.{cons≢nil, tail-eq_of_cons-eq}
use bartleby.Prelude.{ℕ, zero, suc, String, ◌≡◌, refl, Option, none, some, List, [], All}
use bartleby.Text.{drop_text}
use bartleby.Regex.{
  Regex, Cursor, between, match, found, match_at, Match, put, skipped, scan, match_all,
}
use bartleby.Regex.Sound.{Matches, match-IsSound}

-- The places between which the expression matched.
pub record IsHit (r : Regex) (text : String) (m : Match) : Type 0 where
  pub from : Cursor
  pub to : Cursor
  pub matches : Matches r from to
  pub place : from.rest ≡ drop_text m.index text
  pub fresh : from.groups ≡ []
  pub read : m.text ≡ between from to
  pub groups : m.groups ≡ to.groups

drop_text-suc :
    (i : ℕ) (text s : String) (c : Char)
    → Path String (String.◌∷◌ c s) (drop_text i text)
    → s ≡ drop_text (suc i) text
drop_text-suc zero String.[] s c e = absurd (cons≢nil e)
drop_text-suc zero (String.◌∷◌ d text) s c e = tail-eq_of_cons-eq e
drop_text-suc (suc i) String.[] s c e = absurd (cons≢nil e)
drop_text-suc (suc i) (String.◌∷◌ d text) s c e = drop_text-suc i text s c e

All-put :
    (P : Match → Type 0) (o : Option Match) (ms : List Match)
    → ((m : Match) → o ≡ some m → P m)
    → All P ms
    → All P (put o ms)
All-put P none ms h k = k
All-put P (some m) ms h k = (h m refl, k)

module _ (r : Regex) (text : String) where
  found-IsHit :
      (i : ℕ) (here : Cursor) (o : Option Cursor)
      → ((there : Cursor) → o ≡ some there → Matches r here there)
      → here.rest ≡ drop_text i text
      → here.groups ≡ []
      → (m : Match) → found i here o ≡ some m
      → IsHit r text m
  found-IsHit i here none h place fresh m e = cc
  found-IsHit i here (some there) h place fresh m e =
      let same : record { index = i; text = between here there; groups = there.groups } ≡ m = cc in
      rw (← same) (record {
        from = here;
        to = there;
        matches = h there refl;
        place = place;
        fresh = fresh;
        read = refl;
        groups = refl;
      })

  match_at-IsHit :
      (i : ℕ) (before : Option ℕ) (rest : String)
      → rest ≡ drop_text i text
      → (m : Match) → match_at r i before rest ≡ some m
      → IsHit r text m
  unfolding match_at
  match_at-IsHit i before rest place m e =
      let here : Cursor = record { before = before; rest = rest; groups = [] } in
      found-IsHit i here (match r here some)
        (λ there e.
          let (stop, matches, same) = match-IsSound r here some there e in
          let here_it_stops : stop ≡ there = cc in rw (← here_it_stops) matches)
        place refl m e

  scan-IsHit :
      (i : ℕ) (before : Option ℕ) (skip : ℕ) (rest : String)
      → rest ≡ drop_text i text
      → All (IsHit r text) (scan r i before skip rest)
  unfolding scan
  scan-IsHit i before zero String.[] e =
      All-put _ (match_at r i before String.[]) [] (match_at-IsHit i before String.[] e) tt
  scan-IsHit i before (suc skip) String.[] e = tt
  scan-IsHit i before zero (String.◌∷◌ c s) e =
      let m = match_at r i before (String.◌∷◌ c s) in
      All-put _ m (scan r (suc i) (some (code c)) (skipped m) s)
        (match_at-IsHit i before (String.◌∷◌ c s) e)
        (scan-IsHit (suc i) (some (code c)) (skipped m) s (drop_text-suc i text s c e))
  scan-IsHit i before (suc skip) (String.◌∷◌ c s) e =
      scan-IsHit (suc i) (some (code c)) skip s (drop_text-suc i text s c e)

pub match_all-IsHit : (r : Regex) (text : String) → All (IsHit r text) (match_all r text)
unfolding match_all
match_all-IsHit r text = scan-IsHit r text 0 none 0 text refl
