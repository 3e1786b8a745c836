-- ===== src/Exchange/OrderBook/Orders.antt =====
-- `getNextPriority`, `addOrder` and `removeOrder` of exchange/matcher/me_order_book.h: the circular
-- list of the orders of a price level, oldest first, and the map from clients to orders.
use trading_ecosystem.Prelude.{
  ℕ, ◌+◌, ◌%◌, ◌^◌, Option, none, some, ltb, if◌then◌else◌, update, Outcome, ok, ◌>>=◌, ◌>>◌,
  in_range, deref,
}
use trading_ecosystem.Prelude.Int.{ℤ}
use trading_ecosystem.Common.Types.{me_max_num_clients, me_max_order_ids}
use trading_ecosystem.Common.MemPool.{allocate, deallocate}
use trading_ecosystem.Exchange.OrderBook.State.{
  Book, level, set_level, order, set_order, set_prev_order, set_next_order, get_orders_at_price,
  points_to,
}
use trading_ecosystem.Exchange.OrderBook.Levels.{add_orders_at_price, remove_orders_at_price}

-- One more than the priority of the last order at the price, in 64 bits.
unfoldable pub get_next_priority : ℤ → Book → Outcome ℕ
get_next_priority price b = elim (get_orders_at_price price b) [
  | none ↦ ok 1
  | some l ↦ do
    first ← deref (level b l).first_me_order
    last ← deref (order b first).prev_order
    ok (((order b last).priority + 1) % 2 ^ 64)
]

-- `cid_oid_to_order_.at(client_id).at(client_order_id) = p`
unfoldable pub set_client_order : ℕ → ℕ → Option ℕ → Book → Outcome Book
set_client_order client_id order_id p b = do
  in_range (ltb client_id me_max_num_clients)
  in_range (ltb order_id me_max_order_ids)
  let orders = update (b.cid_oid_to_order client_id) order_id p
  ok (record b { cid_oid_to_order = update b.cid_oid_to_order client_id orders })

-- The first order at its price: it is alone in its list, on a new level.
unfoldable pub add_on_new_level : ℕ → Book → Outcome Book
unfolding set_order
add_on_new_level o b = do
  let b = set_prev_order o (some o) b
  let b = set_next_order o (some o) b
  (l, pool) ← allocate b.orders_at_price_pool (record {
    side = (order b o).side;
    price = (order b o).price;
    first_me_order = some o;
    prev_entry = none;
    next_entry = none;
  })
  add_orders_at_price l (record b { orders_at_price_pool = pool })

-- Links an order in behind the last one of its level.
unfoldable pub append_order : ℕ → ℕ → Book → Outcome Book
unfolding set_order
append_order o l b = do
  first ← deref (level b l).first_me_order
  last ← deref (order b first).prev_order
  let b = set_next_order last (some o) b
  let b = set_prev_order o (order b first).prev_order b
  let b = set_next_order o (some first) b
  ok (set_prev_order first (some o) b)

unfoldable pub add_order : ℕ → Book → Outcome Book
add_order o b = do
  b ← (elim (get_orders_at_price (order b o).price b) [
    | none ↦ add_on_new_level o b
    | some l ↦ append_order o l b
  ])
  set_client_order (order b o).client_id (order b o).client_order_id (some o) b

-- Takes an order out of the list of its level, where it is not alone.
unfoldable pub unlink_order : ℕ → ℕ → Book → Outcome Book
unfolding set_order set_level
unlink_order o l b = do
  before ← deref (order b o).prev_order
  after ← deref (order b o).next_order
  let b = set_next_order before (some after) b
  let b = set_prev_order after (some before) b
  let b =
      if points_to (level b l).first_me_order o
      then set_level l (record (level b l) { first_me_order = some after }) b
      else b
  ok (set_prev_order o none (set_next_order o none b))

unfoldable pub remove_order : ℕ → Book → Outcome Book
remove_order o b = do
  b ←
      (if points_to (order b o).prev_order o
        then remove_orders_at_price (order b o).side (order b o).price b
        else deref (get_orders_at_price (order b o).price b) >>= λ l. unlink_order o l b)
  b ← set_client_order (order b o).client_id (order b o).client_order_id none b
  pool ← deallocate b.order_pool o
  ok (record b { order_pool = pool })
