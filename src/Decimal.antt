-- ===== src/Decimal.antt =====
-- Python's `decimal.Decimal`, of the standard library: its operations are the parameter of every
-- definition that computes with money, and the laws that the code relies on are in Decimal/Laws.
-- The values are the finite decimals; NaN and the infinities are not among them. A call of
-- `div` with divisor zero, which Python answers by an exception, has no law. Where the
-- code does not keep a divisor from being zero, the definitions divide by `quotient`
-- (Decimal/Quotient), which raises.
pub mod Laws
pub mod Lemmas
pub mod Fixed
pub mod Quotient
use alpha_council.Base.{ℕ, ◌*◌, String, Bool, not, ◌&&◌, Option, none, some, if◌then◌else◌}
use alpha_council.Base.Int.{ℤ}

pub record Decimal (D : Type 0) : Type 0 where
  -- a constant of at most four decimals: `constant n` is n / 10000
  pub constant : ℕ → D
  pub le : D → D → Bool
  pub plus : D → D → D
  pub minus : D → D → D
  pub times : D → D → D
  pub over : D → D → D
  -- int(a), which truncates towards zero
  pub truncate : D → ℤ
  -- a.quantize(...) to so many decimals, with ROUND_HALF_UP
  pub quantize : ℕ → D → D
  -- str(a)
  pub text : D → String

module _ {D : Type 0} ⦃d : Decimal D⦄ where
  abbrev pub decimal : ℕ → D
  decimal = d.constant

  -- a <= b
  abbrev pub leb : D → D → Bool
  leb = d.le

  -- a < b, for finite decimals
  abbrev pub ltb : D → D → Bool
  ltb a b = not (d.le b a)

  abbrev pub add : D → D → D
  add = d.plus

  abbrev pub sub : D → D → D
  sub = d.minus

  abbrev pub mul : D → D → D
  mul = d.times

  abbrev pub div : D → D → D
  div = d.over

  abbrev pub int : D → ℤ
  int = d.truncate

  abbrev pub nought : D
  nought = d.constant 0

  abbrev pub one : D
  one = d.constant 10_000

  -- Decimal(n) for a whole number
  abbrev pub whole : ℕ → D
  whole n = d.constant (n * 10_000)

  -- -a
  abbrev pub neg : D → D
  neg a = d.minus (d.constant 0) a

  -- max(a, b) and min(a, b) keep their first argument at a tie
  abbrev pub max : D → D → D
  max a b = if ltb a b then b else a

  abbrev pub min : D → D → D
  min a b = if ltb b a then b else a

  -- abs(a)
  abbrev pub abs : D → D
  abs a = if ltb a nought then neg a else a

  -- A Decimal is truthy if it is not zero.
  abbrev pub truthy : D → Bool
  truthy a = not (leb a nought && leb nought a)

  -- `a if a else None`
  abbrev pub if_truthy : Option D → Option D
  if_truthy none = none
  if_truthy (some a) = if truthy a then some a else none
