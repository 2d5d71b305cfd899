-- ===== src/Http.antt =====
-- The error model of the HTTP layer (server/src/http/errors.ts), and handlers as actions: what
-- was written before a throw stays written, so the state comes back beside the error too.
pub mod Keeps
pub mod Yields
use bartleby.Prelude.{ℕ, String, Option, none, some}

-- `internal` is any other exception, such as an SqliteError.
pub data Error : Type 0 where
  not_found validation forbidden conflict internal : Error

-- The status of the response that `errorHandler` makes of an exception.
pub status : Error → ℕ
status not_found = 404
status validation = 400
status forbidden = 403
status conflict = 409
status internal = 500

-- The `error.code` field of that response.
pub error_code : Error → String
error_code not_found = "not_found"
error_code validation = "validation_failed"
error_code forbidden = "forbidden"
error_code conflict = "conflict"
error_code internal = "internal"

pub data Result (A : Type 0) : Type 0 where
  ok : A → Result A
  err : Error → Result A

abbrev pub Exec : Type 0 → Type 0 → Type 0
Exec S A = S → Result A × S

module _ {S A : Type 0} where
  pub pure : A → Exec S A
  pure a s = (ok a, s)

  pub raise : Error → Exec S A
  raise e s = (err e, s)

  -- A read of the state.
  pub gets : (S → A) → Exec S A
  gets f s = (ok (f s), s)

  -- `if (row === undefined) throw …`
  pub require : Option A → Error → Exec S A
  require none e s = (err e, s)
  require (some a) e s = (ok a, s)

-- A write that cannot fail.
pub modify : {S : Type 0} → (S → S) → Exec S Unit
modify f s = (ok tt, f s)

module _ {S A B : Type 0} where
  abbrev pub continue : Result A → (A → Exec S B) → Exec S B
  continue (ok a) f s = f a s
  continue (err e) f s = (err e, s)

  infixl 5 ◌>>=◌ ◌>>◌
  -- Opening this opens the actions above too.
  unfoldable pub ◌>>=◌ : Exec S A → (A → Exec S B) → Exec S B
  unfolding pure raise gets require modify
  ◌>>=◌ m f s = continue (m s).0 f (m s).1

  abbrev pub ◌>>◌ : Exec S A → Exec S B → Exec S B
  m >> n = m >>= λ _. n
