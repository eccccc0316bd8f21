-- ===== src/Execution/World.antt =====
-- What the execution layer reads and writes: its store, the provider behind the SDK's trading
-- client, and a journal of the orders that were sent to that client.
use alpha_council.Base.{ℕ, String, Bool, Option, List}
use alpha_council.Execution.Models.{OrderType, OrderSide, TimeInForce, PositionIntent}
use alpha_council.Execution.Store.{Table}

-- The SDK's order statuses that the gateway maps, and any other.
pub data AlpacaOrderStatus : Type 0 where
  new pending_new accepted partially_filled filled done_for_day canceled expired : AlpacaOrderStatus
  replaced pending_cancel pending_replace pending_review : AlpacaOrderStatus
  accepted_for_bidding stopped rejected suspended calculated held other : AlpacaOrderStatus

-- An order of the SDK, its quantities read as decimals.
pub record AlpacaOrder (D : Type 0) : Type 0 where
  pub id : String
  pub client_order_id : String
  pub symbol : String
  pub is_buy : Bool
  pub qty : D
  pub is_limit : Bool
  pub is_day : Bool
  pub limit_price : Option D
  pub status : AlpacaOrderStatus
  pub status_text : String
  pub submitted_at : ℕ
  pub filled_at : Option ℕ
  pub filled_qty : D
  pub filled_avg_price : Option D

-- The numbers are those that the gateway passes to Python's float() for the SDK's request: the
-- precision of that conversion is left out.
pub record OrderRequest (D : Type 0) : Type 0 where
  pub symbol : String
  pub qty : D
  pub side : OrderSide
  pub order_type : OrderType
  pub time_in_force : TimeInForce
  pub limit_price : Option D
  pub client_order_id : String
  pub position_intent : Option PositionIntent

-- `not_found` is an exception whose text holds "not found" or "404", `failed` any other.
pub data Reply (A : Type 0) : Type 0 where
  answered : A → Reply A
  not_found failed : Reply A

-- The SDK's client over the state `P` of the provider. `get_account` says whether the account's
-- status reads "active".
pub record TradingClient (D : Type 0) (P : Type 0) : Type 0 where
  pub get_account : P → Reply Bool × P
  pub submit_order : OrderRequest D → P → Reply (AlpacaOrder D) × P
  pub get_order_by_id : String → P → Reply (AlpacaOrder D) × P
  pub get_order_by_client_id : String → P → Reply (AlpacaOrder D) × P
  pub cancel_order_by_id : String → P → Reply (Unit {0}) × P
  pub get_orders : P → Reply (List (AlpacaOrder D)) × P

pub record World (D : Type 0) (P : Type 0) : Type 0 where
  pub store : Table
  pub provider : P
  pub journal : List (OrderRequest D)

-- The exceptions of the execution layer.
pub data Error : Type 0 where
  execution_error market_data_error gateway_error integrity_error value_error : Error

pub data Result (A : Type 0) : Type 0 where
  ok : A → Result A
  err : Error → Result A

-- A method: what was written before an exception stays written.
abbrev pub Exec : Type 0 → Type 0 → Type 0 → Type 0
Exec D P A = World D P → Result A × World D P

module _ {D P A : Type 0} where
  abbrev pub pure : A → Exec D P A
  pure a w = (ok a, w)

  abbrev pub raise : Error → Exec D P A
  raise e w = (err e, w)

module _ {D P A B : Type 0} where
  unfoldable pub continue : Result A → (A → Exec D P B) → Exec D P B
  continue (ok a) f w = f a w
  continue (err e) f w = (err e, w)

  infixl 5 ◌>>=◌ ◌>>◌
  unfoldable pub ◌>>=◌ : Exec D P A → (A → Exec D P B) → Exec D P B
  unfolding continue
  ◌>>=◌ m f w = let (r, w') = m w in continue r f w'

  abbrev pub ◌>>◌ : Exec D P A → Exec D P B → Exec D P B
  m >> n = m >>= λ _. n

module _ {D P A : Type 0} where
  unfoldable pub recover : Result A → (Error → Exec D P A) → Exec D P A
  recover (ok a) handler w = (ok a, w)
  recover (err e) handler w = handler e w

  -- `try: body except Exception as e: handler`
  unfoldable pub try_except : Exec D P A → (Error → Exec D P A) → Exec D P A
  unfolding recover
  try_except m handler w = let (r, w') = m w in recover r handler w'

module _ {D P : Type 0} where
  abbrev pub modify_store : (Table → Table) → Exec D P (Unit {0})
  modify_store f w = (ok tt, record w { store = f w.store })
