-- ===== src/Trading/MarketOrderBook/State.antt =====
-- The state of trading/strategy/market_order_book.h and the nodes of trading/strategy/market_order.h.
-- A pointer is the index of a block of its pool, and `none` is null. The calls of the trade engine are
-- collected in `notices`.
use trading_ecosystem.Prelude.{
  ℕ, Bool, false, Option, none, some, List, ◌==◌, if◌then◌else◌, update,
}
use trading_ecosystem.Prelude.Int.{ℤ}
use trading_ecosystem.Common.Types.{Side, is_buy, price_to_index}
use trading_ecosystem.Common.MemPool.{MemPool, object_at, set_object}
use trading_ecosystem.Exchange.Messages.{MeMarketUpdate}

pub record MarketOrder : Type 0 where
  pub order_id : ℕ
  pub side : Side
  pub price : ℤ
  pub qty : ℕ
  pub priority : ℕ
  pub prev_order : Option ℕ
  pub next_order : Option ℕ

pub record MarketOrdersAtPrice : Type 0 where
  pub side : Side
  pub price : ℤ
  pub first_mkt_order : Option ℕ
  pub prev_entry : Option ℕ
  pub next_entry : Option ℕ

pub record Bbo : Type 0 where
  pub bid_price : ℤ
  pub ask_price : ℤ
  pub bid_qty : ℕ
  pub ask_qty : ℕ

-- `onTradeUpdate` and `onOrderBookUpdate` of the trade engine
pub data Notice : Type 0 where
  trade_update : MeMarketUpdate → Notice
  order_book_update : ℕ → ℤ → Side → Notice

pub record MarketOrderBook : Type 0 where
  pub oid_to_order : ℕ → Option ℕ
  pub orders_at_price_pool : MemPool MarketOrdersAtPrice
  pub bids_by_price : Option ℕ
  pub asks_by_price : Option ℕ
  pub price_orders_at_price : ℕ → Option ℕ
  pub order_pool : MemPool MarketOrder
  pub bbo : Bbo
  pub notices : List Notice

-- `*p` for a price level and for an order
abbrev pub level : MarketOrderBook → ℕ → MarketOrdersAtPrice
level b l = object_at b.orders_at_price_pool l

abbrev pub order : MarketOrderBook → ℕ → MarketOrder
order b o = object_at b.order_pool o

-- An assignment to the node behind a pointer, and to its link fields
unfoldable pub set_level : ℕ → MarketOrdersAtPrice → MarketOrderBook → MarketOrderBook
unfolding set_object
set_level l node b = record b { orders_at_price_pool = set_object b.orders_at_price_pool l node }

unfoldable pub set_order : ℕ → MarketOrder → MarketOrderBook → MarketOrderBook
unfolding set_object
set_order o node b = record b { order_pool = set_object b.order_pool o node }

abbrev pub set_prev_entry : ℕ → Option ℕ → MarketOrderBook → MarketOrderBook
set_prev_entry l p b = set_level l (record (level b l) { prev_entry = p }) b

abbrev pub set_next_entry : ℕ → Option ℕ → MarketOrderBook → MarketOrderBook
set_next_entry l p b = set_level l (record (level b l) { next_entry = p }) b

abbrev pub set_prev_order : ℕ → Option ℕ → MarketOrderBook → MarketOrderBook
set_prev_order o p b = set_order o (record (order b o) { prev_order = p }) b

abbrev pub set_next_order : ℕ → Option ℕ → MarketOrderBook → MarketOrderBook
set_next_order o p b = set_order o (record (order b o) { next_order = p }) b

-- `(side == Side::BUY ? bids_by_price_ : asks_by_price_)`, and an assignment to it
abbrev pub best : Side → MarketOrderBook → Option ℕ
best side b = if is_buy side then b.bids_by_price else b.asks_by_price

abbrev pub set_best : Side → Option ℕ → MarketOrderBook → MarketOrderBook
set_best side p b =
    if is_buy side then record b { bids_by_price = p } else record b { asks_by_price = p }

-- `getOrdersAtPrice`
abbrev pub get_orders_at_price : ℤ → MarketOrderBook → Option ℕ
get_orders_at_price price b = b.price_orders_at_price (price_to_index price)

abbrev pub set_orders_at_price : ℤ → Option ℕ → MarketOrderBook → MarketOrderBook
set_orders_at_price price p b = record b {
  price_orders_at_price = update b.price_orders_at_price (price_to_index price) p;
}

-- A comparison of a pointer that may be null with one that is not.
abbrev pub points_to : Option ℕ → ℕ → Bool
points_to none q = false
points_to (some p) q = p == q

-- `getBBO`
abbrev pub get_bbo : MarketOrderBook → Bbo
get_bbo b = b.bbo
