-- ===== src/Decimal/Quotient.antt =====
-- A division whose divisor no test keeps from being zero, of decimal.Decimal in Python's standard
-- library.
use alpha_council.Base.{if◌then◌else◌}
use alpha_council.Alpaca.{Outcome, answered, raised}
use alpha_council.Decimal.{Decimal, div, truthy}

module _ {D : Type 0} ⦃d : Decimal D⦄ where
  -- `a / b`, which raises DivisionByZero, or InvalidOperation for 0 / 0
  abbrev pub quotient : D → D → Outcome D
  quotient a b = if truthy b then answered (div a b) else raised
