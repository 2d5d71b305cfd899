-- ===== src/Http/Keeps.antt =====
-- Invariants of handlers: one rule for each way to build an action.
use bartleby.Prelude.{Bool, true, false, Option, none, some, if◌then◌else◌}
use bartleby.Http.{
  Error, Result, ok, err, Exec, pure, raise, gets, require, modify, continue, ◌>>=◌,
}

-- Whether the action returns or throws, what it leaves behind satisfies `P`.
pub record Keeps {S A : Type 0} (P : S → Type 0) (m : Exec S A) : Type 0 where
  pub after : (s : S) → P s → P (m s).1

module _ {S A : Type 0} (P : S → Type 0) where
  -- Both branches have to.
  pub Keeps-if :
      (test : Bool) (taken other : Exec S A)
      → Keeps P taken
      → Keeps P other
      → Keeps P (if test then taken else other)
  Keeps-if true taken other good _ = good
  Keeps-if false taken other _ good = good

  -- Nothing is written by these four.
  pub Keeps-require : (o : Option A) (e : Error) → Keeps P (require o e)
  unfolding ◌>>=◌
  Keeps-require none e = record { after = λ _ kept. kept }
  Keeps-require (some a) e = record { after = λ _ kept. kept }

  pub Keeps-gets : (look : S → A) → Keeps P (gets look)
  unfolding ◌>>=◌
  Keeps-gets look = record { after = λ _ kept. kept }

  pub Keeps-raise : (problem : Error) → Keeps P (raise {A = A} problem)
  unfolding ◌>>=◌
  Keeps-raise problem = record { after = λ _ kept. kept }

  pub Keeps-pure : (result : A) → Keeps P (pure result)
  unfolding ◌>>=◌
  Keeps-pure result = record { after = λ _ kept. kept }

-- A write, where it keeps the invariant.
pub Keeps-modify :
    {S : Type 0} (P : S → Type 0) (f : S → S) → ((s : S) → P s → P (f s)) → Keeps P (modify f)
unfolding ◌>>=◌
Keeps-modify P f h = record { after = h }

module _ {S A B : Type 0} (P : S → Type 0) where
  pub Keeps-bind :
      (first : Exec S A) (next : A → Exec S B)
      → Keeps P first
      → ((a : A) → Keeps P (next a))
      → Keeps P (first >>= next)
  unfolding ◌>>=◌
  Keeps-bind first next kept_first kept_next = record {
    after = λ s h. go (first s).0 (first s).1 (kept_first.after s h);
  }
    where
      go : (r : Result A) (s : S) → P s → P (continue r next s).1
      go (ok a) s h = (kept_next a).after s h
      go (err e) s h = h

pub ruleset keeps_rules =
    (Keeps-pure, Keeps-raise, Keeps-gets, Keeps-require, Keeps-if, Keeps-bind, Keeps-modify)
