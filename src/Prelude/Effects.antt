-- ===== src/Prelude/Effects.antt =====
-- A call of a service: a result or an exception, beside the session as the call leaves it. What was
-- flushed before an exception stays in the session until its owner rolls it back.
use mathlib.Core.Bool.{Bool, true, false}
use mathlib.Core.Option.{Option, none, some}
use Prim.Native.String.{String}

pub data Error : Type 0 where
  task_not_found : String → Error  -- DurableStateNotFoundError
  step_not_found : String → Error  -- DurableStateNotFoundError
  validation_error : Error  -- pydantic's, for a command
  integrity_error : Error  -- the database's, for a row
  value_error : String → Error  -- ValueError, with its message
  attribute_error : Error  -- AttributeError, of None

pub data Result (A : Type 0) : Type 0 where
  ok : A → Result A
  raise : Error → Result A

abbrev pub M : Type 0 → Type 0 → Type 0
M S A = S → Result A × S

-- The rest of a call, after a part that returned or raised.
abbrev pub and_then : {S A B : Type 0} → Result A × S → (A → M S B) → Result B × S
and_then (ok a, s) f = f a s
and_then (raise e, s) f = (raise e, s)

infixl 5 ◌>>=◌ ◌>>◌
abbrev pub ◌>>=◌ : {S A B : Type 0} → M S A → (A → M S B) → M S B
◌>>=◌ m f s = and_then (m s) f

abbrev pub ◌>>◌ : {S A B : Type 0} → M S A → M S B → M S B
◌>>◌ m k s = and_then (m s) (λ _. k)

abbrev pub pure : {S A : Type 0} → A → M S A
pure a s = (ok a, s)

abbrev pub throw : {S A : Type 0} → Error → M S A
throw e s = (raise e, s)

abbrev pub modify : {S : Type 0} → (S → S) → M S (Unit {0})
modify f s = (ok tt, f s)

abbrev pub gets : {S A : Type 0} → (S → A) → M S A
gets f s = (ok (f s), s)

abbrev pub require : {S : Type 0} → Bool → Error → M S (Unit {0})
require true e s = (ok tt, s)
require false e s = (raise e, s)

abbrev pub some_or : {S A : Type 0} → Error → Option A → M S A
some_or e none s = (raise e, s)
some_or e (some a) s = (ok a, s)

-- An insertion keeps the session as it was where the database refuses the row.
abbrev pub attempt : {S : Type 0} → (S → Option S) → M S (Unit {0})
attempt f s = elim (f s) [ none ↦ (raise integrity_error, s) | some s' ↦ (ok tt, s') ]
