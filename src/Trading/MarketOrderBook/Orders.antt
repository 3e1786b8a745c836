-- ===== src/Trading/MarketOrderBook/Orders.antt =====
-- `addOrder` and `removeOrder` of trading/strategy/market_order_book.h: the circular list of the orders
-- of a price level, oldest first, and the map from identifiers to orders.
use trading_ecosystem.Prelude.{
  ℕ, Option, none, some, ltb, if◌then◌else◌, update, Outcome, ok, ◌>>=◌, ◌>>◌, in_range, deref,
}
use trading_ecosystem.Common.Types.{me_max_order_ids}
use trading_ecosystem.Common.MemPool.{allocate, deallocate}
use trading_ecosystem.Trading.MarketOrderBook.State.{
  MarketOrderBook, level, set_level, order, set_order, set_prev_order, set_next_order,
  get_orders_at_price, points_to,
}
use trading_ecosystem.Trading.MarketOrderBook.Levels.{add_orders_at_price, remove_orders_at_price}

-- `oid_to_order_.at(order_id) = p`
unfoldable pub set_order_id : ℕ → Option ℕ → MarketOrderBook → Outcome MarketOrderBook
set_order_id order_id p b = do
  in_range (ltb order_id me_max_order_ids)
  ok (record b { oid_to_order = update b.oid_to_order order_id p })

-- The first order at its price: it is alone in its list, on a new level.
unfoldable pub add_on_new_level : ℕ → MarketOrderBook → Outcome MarketOrderBook
unfolding set_order
add_on_new_level o b = do
  let b = set_prev_order o (some o) b
  let b = set_next_order o (some o) b
  (l, pool) ← allocate b.orders_at_price_pool (record {
    side = (order b o).side;
    price = (order b o).price;
    first_mkt_order = some o;
    prev_entry = none;
    next_entry = none;
  })
  add_orders_at_price l (record b { orders_at_price_pool = pool })

-- Links an order in behind the last one of its level.
unfoldable pub append_order : ℕ → ℕ → MarketOrderBook → Outcome MarketOrderBook
unfolding set_order
append_order o l b = do
  first ← deref (level b l).first_mkt_order
  last ← deref (order b first).prev_order
  let b = set_next_order last (some o) b
  let b = set_prev_order o (order b first).prev_order b
  let b = set_next_order o (some first) b
  ok (set_prev_order first (some o) b)

unfoldable pub add_order : ℕ → MarketOrderBook → Outcome MarketOrderBook
add_order o b = do
  b ← (elim (get_orders_at_price (order b o).price b) [
    | none ↦ add_on_new_level o b
    | some l ↦ append_order o l b
  ])
  set_order_id (order b o).order_id (some o) b

-- Takes an order out of the list of its level, where it is not alone.
unfoldable pub unlink_order : ℕ → ℕ → MarketOrderBook → Outcome MarketOrderBook
unfolding set_order set_level
unlink_order o l b = do
  before ← deref (order b o).prev_order
  after ← deref (order b o).next_order
  let b = set_next_order before (some after) b
  let b = set_prev_order after (some before) b
  let b =
      if points_to (level b l).first_mkt_order o
      then set_level l (record (level b l) { first_mkt_order = some after }) b
      else b
  ok (set_prev_order o none (set_next_order o none b))

unfoldable pub remove_order : ℕ → MarketOrderBook → Outcome MarketOrderBook
remove_order o b = do
  b ←
      (if points_to (order b o).prev_order o
        then remove_orders_at_price (order b o).side (order b o).price b
        else deref (get_orders_at_price (order b o).price b) >>= λ l. unlink_order o l b)
  b ← set_order_id (order b o).order_id none b
  pool ← deallocate b.order_pool o
  ok (record b { order_pool = pool })
