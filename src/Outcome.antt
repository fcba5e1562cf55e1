-- ===== src/Outcome.antt =====
-- Results of operations that allocate: `AllocResult`, a panic, and the fuel of the model.
-- An operation that fails leaves the changes that it made before.
use oxidd.Prelude.{Option, none, some}

pub data Error : Type 0 where
  out_of_memory panic out_of_fuel : Error

pub data Result (A : Type 0) : Type 0 where
  ok : A → Result A
  err : Error → Result A

abbrev pub Run : Type 0 → Type 0 → Type 0
Run S A = S → Result A × S

abbrev pub pure : {S A : Type 0} → A → Run S A
pure a s = (ok a, s)

abbrev pub raise : {S A : Type 0} → Error → Run S A
raise e s = (err e, s)

abbrev pub and_then : {S A B : Type 0} → Result A → S → (A → Run S B) → Result B × S
and_then (ok a) s f = f a s
and_then (err e) s f = (err e, s)

infixl 5 ◌>>=◌ ◌>>◌
abbrev pub ◌>>=◌ : {S A B : Type 0} → Run S A → (A → Run S B) → Run S B
◌>>=◌ m f s = and_then (m s).0 (m s).1 f

abbrev pub ◌>>◌ : {S B : Type 0} → Run S (Unit {0}) → Run S B → Run S B
m >> k = m >>= λ _. k

-- The value of an `Option` that the code takes to be there.
abbrev pub expect : {S A : Type 0} → Option A → Run S A
expect none = raise panic
expect (some a) = pure a
