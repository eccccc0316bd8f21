-- ===== src/Alpaca.antt =====
-- What the read-only Alpaca gateway answers (backend/app/alpaca/models.py, gateway.py). The SDK
-- behind it is not part of the repository: its answers are values that the definitions take.
-- Numbers that the gateway keeps as text are decimals here, `none` for None and for "".
use alpha_council.Base.{String, Bool, Option, List}

-- A call answers, or raises any exception.
pub data Outcome (A : Type 0) : Type 0 where
  answered : A → Outcome A
  raised : Outcome A

pub record AccountSnapshot (D : Type 0) : Type 0 where
  pub equity : Option D
  pub buying_power : Option D
  pub cash : Option D
  pub portfolio_value : Option D

pub record MarketClock : Type 0 where
  pub is_open : Bool

-- The source's record has no field `shortable` and none `easy_to_borrow`.
pub record AssetInfo : Type 0 where
  pub symbol : String
  pub tradable : Bool

pub record PositionSnapshot (D : Type 0) : Type 0 where
  pub symbol : String
  pub qty : D
  pub market_value : Option D
  pub unrealized_pl : Option D

-- The answers of the two calls that one risk evaluation makes.
pub record AccountAnswers (D : Type 0) : Type 0 where
  pub account : Outcome (AccountSnapshot D)
  pub positions : Outcome (List (PositionSnapshot D))
