-- ===== src/Device/Event.antt =====
-- The events for the data base: src/DBEventCommon.h. An argument is kept as what it is made of,
-- since `itoa` writes a number as its decimal digits.
use ritex.Base.{ℕ, Option}
use Prim.Native.String.{String}

-- `error_number n` is the text "E-" in front of the digits of n.
pub data Argument : Type 0 where
  empty : Argument
  number : ℕ → Argument
  text : String → Argument
  error_number : ℕ → Argument

-- A channel of -1 is `none`.
pub record DbEvent : Type 0 where
  pub type_id : ℕ
  pub channel_id : Option ℕ
  pub register_time : ℕ
  pub argument1 : Argument
  pub argument2 : Argument
  pub argument3 : Argument
  pub argument4 : Argument
