-- ===== src/Exchange/OrderBook/State.antt =====
-- The state of exchange/matcher/me_order_book.h and the nodes of exchange/matcher/me_order.h.
-- A pointer is the index of a block of its pool, and `none` is null. The messages that the book
-- sends are collected in `events`; the scratch members `client_response_` and `market_update_` hold
-- only a message on its way out, and have no field.
use trading_ecosystem.Prelude.{
  ℕ, Bool, false, Option, none, some, List, [], ◌∷◌, ◌++◌, ◌==◌, if◌then◌else◌, update,
}
use trading_ecosystem.Prelude.Int.{ℤ}
use trading_ecosystem.Common.Types
use trading_ecosystem.Common.Types.{
  Side, is_buy, price_to_index, me_max_price_levels, me_max_order_ids, order_id_invalid,
  qty_invalid, price_invalid, priority_invalid,
}
use trading_ecosystem.Common.MemPool.{MemPool, mem_pool, object_at, set_object}
use trading_ecosystem.Exchange.Messages.{Event}

pub record MeOrder : Type 0 where
  pub ticker_id : ℕ
  pub client_id : ℕ
  pub client_order_id : ℕ
  pub market_order_id : ℕ
  pub side : Side
  pub price : ℤ
  pub qty : ℕ
  pub priority : ℕ
  pub prev_order : Option ℕ
  pub next_order : Option ℕ

pub record MeOrdersAtPrice : Type 0 where
  pub side : Side
  pub price : ℤ
  pub first_me_order : Option ℕ
  pub prev_entry : Option ℕ
  pub next_entry : Option ℕ

pub record Book : Type 0 where
  pub ticker_id : ℕ
  pub cid_oid_to_order : ℕ → ℕ → Option ℕ
  pub orders_at_price_pool : MemPool MeOrdersAtPrice
  pub bids_by_price : Option ℕ
  pub asks_by_price : Option ℕ
  pub price_orders_at_price : ℕ → Option ℕ
  pub order_pool : MemPool MeOrder
  pub next_market_order_id : ℕ
  pub events : List Event

-- `MEOrder()` and `MEOrdersAtPrice()`
abbrev pub default_order : MeOrder
default_order = record {
  ticker_id = qty_invalid;
  client_id = qty_invalid;
  client_order_id = order_id_invalid;
  market_order_id = order_id_invalid;
  side = Types.Side.invalid;
  price = price_invalid;
  qty = qty_invalid;
  priority = priority_invalid;
  prev_order = none;
  next_order = none;
}

abbrev pub default_orders_at_price : MeOrdersAtPrice
default_orders_at_price = record {
  side = Types.Side.invalid;
  price = price_invalid;
  first_me_order = none;
  prev_entry = none;
  next_entry = none;
}

-- The constructor. It leaves the two hash maps as the allocated memory happens to be, so these are
-- arguments.
unfoldable pub order_book : ℕ → (ℕ → ℕ → Option ℕ) → (ℕ → Option ℕ) → Book
order_book ticker_id by_client by_price = record {
  ticker_id = ticker_id;
  cid_oid_to_order = by_client;
  orders_at_price_pool = mem_pool default_orders_at_price me_max_price_levels;
  bids_by_price = none;
  asks_by_price = none;
  price_orders_at_price = by_price;
  order_pool = mem_pool default_order me_max_order_ids;
  next_market_order_id = 1;
  events = [];
}

-- `*p` for a price level and for an order
abbrev pub level : Book → ℕ → MeOrdersAtPrice
level b l = object_at b.orders_at_price_pool l

abbrev pub order : Book → ℕ → MeOrder
order b o = object_at b.order_pool o

-- An assignment to the node behind a pointer, and to its link fields
unfoldable pub set_level : ℕ → MeOrdersAtPrice → Book → Book
unfolding set_object
set_level l node b = record b { orders_at_price_pool = set_object b.orders_at_price_pool l node }

unfoldable pub set_order : ℕ → MeOrder → Book → Book
unfolding set_object
set_order o node b = record b { order_pool = set_object b.order_pool o node }

abbrev pub set_prev_entry : ℕ → Option ℕ → Book → Book
set_prev_entry l p b = set_level l (record (level b l) { prev_entry = p }) b

abbrev pub set_next_entry : ℕ → Option ℕ → Book → Book
set_next_entry l p b = set_level l (record (level b l) { next_entry = p }) b

abbrev pub set_prev_order : ℕ → Option ℕ → Book → Book
set_prev_order o p b = set_order o (record (order b o) { prev_order = p }) b

abbrev pub set_next_order : ℕ → Option ℕ → Book → Book
set_next_order o p b = set_order o (record (order b o) { next_order = p }) b

-- `(side == Side::BUY ? bids_by_price_ : asks_by_price_)`, and an assignment to it
abbrev pub best : Side → Book → Option ℕ
best side b = if is_buy side then b.bids_by_price else b.asks_by_price

abbrev pub set_best : Side → Option ℕ → Book → Book
set_best side p b =
    if is_buy side then record b { bids_by_price = p } else record b { asks_by_price = p }

-- `getOrdersAtPrice`
abbrev pub get_orders_at_price : ℤ → Book → Option ℕ
get_orders_at_price price b = b.price_orders_at_price (price_to_index price)

abbrev pub set_orders_at_price : ℤ → Option ℕ → Book → Book
set_orders_at_price price p b = record b {
  price_orders_at_price = update b.price_orders_at_price (price_to_index price) p;
}

-- A comparison of a pointer that may be null with one that is not.
abbrev pub points_to : Option ℕ → ℕ → Bool
points_to none q = false
points_to (some p) q = p == q

abbrev pub send : Event → Book → Book
send e b = record b { events = b.events ++ e ∷ [] }
