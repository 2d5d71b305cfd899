-- ===== src/Http/Yields.antt =====
-- What an action of a handler leaves behind when it ends with an answer.
use bartleby.Prelude.{Option, none, some, ◌≡◌, refl, ap}
use bartleby.Http.{Error, Result, ok, err, Exec, continue, pure, gets, require, ◌>>=◌}
use bartleby.Http.Keeps.{Keeps}

-- Where `P` holds before and the action answers `a`, `Q a` holds after.
pub record Yields {S A : Type 0} (P : S → Type 0) (m : Exec S A) (Q : A → S → Type 0) : Type 0 where
  pub ends : (s s' : S) (a : A) → P s → m s ≡ (ok a, s') → Q a s'

module _ {S A : Type 0} where
  pub ok-injective :
      (a b : A) (s s' : S) → Path (Result A × S) (ok a, s) (ok b, s') → (a ≡ b) × (s ≡ s')
  ok-injective a b s s' e = (answer (ap (λ r. r.0) e), ap (λ r. r.1) e)
    where
      answer : Path (Result A) (ok a) (ok b) → a ≡ b
      answer e = cc

  pub Yields-Keeps : (P : S → Type 0) (m : Exec S A) → Keeps P m → Yields P m (λ a. P)
  Yields-Keeps P m k = record { ends = λ s s' a p e. rw (← ap (λ r. r.1) e) (k.after s p) }

  pub Yields-weaken :
      (P : S → Type 0) (Q R : A → S → Type 0) (m : Exec S A)
      → Yields P m Q
      → ((a : A) (s : S) → Q a s → R a s)
      → Yields P m R
  Yields-weaken P Q R m y h = record { ends = λ s s' a p e. h a s' (y.ends s s' a p e) }

  pub Yields-before :
      (P P' : S → Type 0) (Q : A → S → Type 0) (m : Exec S A)
      → ((s : S) → P s → P' s)
      → Yields P' m Q
      → Yields P m Q
  Yields-before P P' Q m h y = record { ends = λ s s' a p e. y.ends s s' a (h s p) e }

  -- A fact that the state has no part in.
  pub Yields-known :
      (C : Type 0) (P : S → Type 0) (Q : A → S → Type 0) (m : Exec S A)
      → (C → Yields P m Q)
      → Yields (λ s. C × P s) m Q
  Yields-known C P Q m f = record { ends = λ s s' a (c, p) e. (f c).ends s s' a p e }

  pub Yields-pure : (P : S → Type 0) (a : A) → Yields P (pure a) (λ b s. P s)
  unfolding ◌>>=◌
  Yields-pure P a = record { ends = λ s s' b p e. rw (← ap (λ r. r.1) e) p }

  pub Yields-gets :
      (P : S → Type 0) (look : S → A) → Yields P (gets look) (λ a s. (look s ≡ a) × P s)
  unfolding ◌>>=◌
  Yields-gets P look = record {
    ends = λ s s' a p e.
        let (answer, same) = ok-injective (look s) a s s' e in rw (← same) (answer, p);
  }

  pub Yields-require :
      (P : S → Type 0) (o : Option A) (problem : Error)
      → Yields P (require o problem) (λ a s. (o ≡ some a) × P s)
  unfolding ◌>>=◌
  Yields-require P none problem = record { ends = λ s s' a p e. cc }
  Yields-require P (some b) problem = record {
    ends = λ s s' a p e.
        let (answer, same) = ok-injective b a s s' e in rw (← same, ← answer) (refl, p);
  }

module _ {S A B : Type 0} where
  pub Yields-bind :
      (P : S → Type 0) (Q : A → S → Type 0) (R : B → S → Type 0) (m : Exec S A) (f : A → Exec S B)
      → Yields P m Q
      → ((a : A) → Yields (Q a) (f a) R)
      → Yields P (m >>= f) R
  unfolding ◌>>=◌
  Yields-bind P Q R m f first next = record {
    ends = λ s s' b p e.
        go (m s).0 (m s).1 s' b (λ a q. first.ends s (m s).1 a p (ap (λ r. (r, (m s).1)) q)) e;
  }
    where
      go :
          (r : Result A) (mid s' : S) (b : B)
          → ((a : A) → r ≡ ok a → Q a mid)
          → continue r f mid ≡ (ok b, s')
          → R b s'
      go (ok a) mid s' b q e = (next a).ends mid s' b (q a refl) e
      go (err p) mid s' b q e = cc

-- What a block that succeeded did first.
pub bind_ok :
    {S A B : Type 0} (m : Exec S A) (f : A → Exec S B) (s s' : S) (b : B)
    → (m >>= f) s ≡ (ok b, s')
    → (a : A) × ((m s).0 ≡ ok a) × (f a (m s).1 ≡ (ok b, s'))
unfolding ◌>>=◌
bind_ok {S} {A} {B} m f s s' b e = go (m s).0 refl e
  where
    go :
        (r : Result A)
        → (m s).0 ≡ r
        → continue r f (m s).1 ≡ (ok b, s')
        → (a : A) × ((m s).0 ≡ ok a) × (f a (m s).1 ≡ (ok b, s'))
    go (ok a) same e = (a, same, e)
    go (err p) same e = cc
