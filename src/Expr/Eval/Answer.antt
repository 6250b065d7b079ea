-- ===== src/Expr/Eval/Answer.antt =====
-- What an evaluation yields: a value, the empty optional, a failed assertion or undefined behaviour,
-- or no result within the fuel.
use abys.Prelude.{Option, none, some}

pub data Answer (A : Type 0) : Type 0 where
  known : A → Answer A
  unknown : Answer A
  fault : Answer A
  out_of_fuel : Answer A

module _ {A B : Type 0} where
  infixl 5 ◌>>=◌
  abbrev pub ◌>>=◌ : Answer A → (A → Answer B) → Answer B
  known a >>= f = f a
  unknown >>= f = unknown
  fault >>= f = fault
  out_of_fuel >>= f = out_of_fuel

module _ {A : Type 0} where
  -- a result that the language defines only for some operands
  abbrev pub defined : Option A → Answer A
  defined none = fault
  defined (some a) = known a

module _ {A B : Type 0} where
  -- a read that is out of bounds where there is nothing
  abbrev pub read : Option A → (A → Answer B) → Answer B
  read none f = fault
  read (some a) f = f a

-- Both operands are evaluated before either optional is looked at.
module _ {A B : Type 0} where
  abbrev pub both : Answer A → Answer A → (A → A → Answer B) → Answer B
  both (known a) r f = r >>= f a
  both unknown (known b) f = unknown
  both unknown unknown f = unknown
  both unknown fault f = fault
  both unknown out_of_fuel f = out_of_fuel
  both fault r f = fault
  both out_of_fuel r f = out_of_fuel
