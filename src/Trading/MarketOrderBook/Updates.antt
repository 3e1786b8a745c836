-- ===== src/Trading/MarketOrderBook/Updates.antt =====
-- `updateBBO` and `onMarketUpdate` of trading/strategy/market_order_book.h and market_order_book.cpp.
use trading_ecosystem.Prelude.{
  ℕ, zero, suc, ◌+◌, ◌%◌, ◌^◌, Bool, true, false, not, ◌&&◌, Option, none, some, ◌++◌, [], ◌∷◌, ltb,
  ◌==◌, if◌then◌else◌, out_of_fuel, Outcome, ok, failed, ◌>>=◌, ◌>>◌, in_range, deref,
}
use trading_ecosystem.Prelude.Int.{ℤ, ltb_ℤ}
use trading_ecosystem.Common.Types.{is_buy, is_sell, me_max_order_ids, qty_invalid, price_invalid}
use trading_ecosystem.Common.MemPool.{MemPool, allocate, deallocate}
use trading_ecosystem.Exchange.Messages.{MarketUpdateType, MeMarketUpdate}
use trading_ecosystem.Trading.MarketOrderBook.State.{
  MarketOrderBook, MarketOrder, MarketOrdersAtPrice, trade_update, order_book_update, level, order,
  set_order,
}
use trading_ecosystem.Trading.MarketOrderBook.Orders.{add_order, remove_order}

-- The loop over the orders of a level behind the first one; sums have 32 bits. The list has no more
-- orders than the pool.
unfoldable pub add_quantities : ℕ → MarketOrderBook → ℕ → ℕ → ℕ → Outcome ℕ
add_quantities zero b first o qty = failed out_of_fuel
add_quantities (suc fuel) b first o qty = elim (o == first) [
  | true ↦ ok qty
  | false ↦ deref (order b o).next_order >>= λ next.
      add_quantities fuel b first next ((qty + (order b o).qty) % 2 ^ 32)
]

-- Price and quantity of the best level of a side.
unfoldable pub best_level : Option ℕ → MarketOrderBook → Outcome (ℤ × ℕ)
unfolding add_quantities
best_level none b = ok (price_invalid, qty_invalid)
best_level (some l) b = do
  first ← deref (level b l).first_mkt_order
  second ← deref (order b first).next_order
  qty ← add_quantities (b.order_pool.size + 1) b first second (order b first).qty
  ok ((level b l).price, qty)

-- `updateBBO`
unfoldable pub update_bbo : Bool → Bool → MarketOrderBook → Outcome MarketOrderBook
unfolding best_level
update_bbo update_bid update_ask b = do
  b ←
      (if update_bid
        then (do
          bid ← best_level b.bids_by_price b
          ok (record b { bbo = record (b.bbo) { bid_price = bid.0; bid_qty = bid.1 } }))
        else ok b)
  if update_ask
      then (do
        ask ← best_level b.asks_by_price b
        ok (record b { bbo = record (b.bbo) { ask_price = ask.0; ask_qty = ask.1 } }))
      else ok b

-- `bid_updated` and `ask_updated`
abbrev pub is_bid_updated : MeMarketUpdate → MarketOrderBook → Bool
is_bid_updated u b = elim b.bids_by_price [
  | none ↦ false
  | some l ↦ is_buy u.side && not (ltb_ℤ u.price (level b l).price)
]

abbrev pub is_ask_updated : MeMarketUpdate → MarketOrderBook → Bool
is_ask_updated u b = elim b.asks_by_price [
  | none ↦ false
  | some l ↦ is_sell u.side && not (ltb_ℤ (level b l).price u.price)
]

-- `oid_to_order_.at(order_id)`, which is then used without a test for null
abbrev pub order_of : ℕ → MarketOrderBook → Outcome ℕ
order_of order_id b = in_range (ltb order_id me_max_order_ids) >> deref (b.oid_to_order order_id)

-- The orders of the identifiers from `i` on go back to the pool, for `k` identifiers.
unfoldable pub free_orders :
    ℕ → ℕ → (ℕ → Option ℕ) → MemPool MarketOrder → Outcome (MemPool MarketOrder)
free_orders zero i orders pool = ok pool
free_orders (suc k) i orders pool = elim (orders i) [
  | none ↦ free_orders k (i + 1) orders pool
  | some o ↦ deallocate pool o >>= free_orders k (i + 1) orders
]

-- The loop over the levels of a side behind the best one. A freed level keeps its links.
unfoldable pub free_levels :
    ℕ
    → ℕ
    → ℕ
    → MemPool MarketOrdersAtPrice
    → MarketOrderBook
    → Outcome (MemPool MarketOrdersAtPrice)
free_levels zero first l pool b = failed out_of_fuel
free_levels (suc fuel) first l pool b = elim (l == first) [
  | true ↦ deallocate pool first
  | false ↦ deallocate pool l >>= λ pool.
      deref (level b l).next_entry >>= λ next. free_levels fuel first next pool b
]

unfoldable pub free_side : Option ℕ → MarketOrderBook → Outcome MarketOrderBook
unfolding free_levels
free_side none b = ok b
free_side (some first) b = do
  next ← deref (level b first).next_entry
  pool ← free_levels (b.orders_at_price_pool.size + 1) first next b.orders_at_price_pool b
  ok (record b { orders_at_price_pool = pool })

-- The case `CLEAR`; the map from prices to levels stays as it is.
unfoldable pub clear_book : MarketOrderBook → Outcome MarketOrderBook
unfolding free_side
clear_book b = do
  pool ← free_orders me_max_order_ids 0 b.oid_to_order b.order_pool
  b ← free_side b.bids_by_price (record b { order_pool = pool; oid_to_order = λ _. none })
  b ← free_side b.asks_by_price b
  ok (record b { bids_by_price = none; asks_by_price = none })

-- The `switch` of `onMarketUpdate`, but for trades
unfoldable pub change_book : MeMarketUpdate → MarketOrderBook → Outcome MarketOrderBook
unfolding clear_book set_order
change_book u b = elim u.kind [
  | MarketUpdateType.add ↦ do
    (o, pool) ← allocate b.order_pool (record {
      order_id = u.order_id;
      side = u.side;
      price = u.price;
      qty = u.qty;
      priority = u.priority;
      prev_order = none;
      next_order = none;
    })
    add_order o (record b { order_pool = pool })
  | MarketUpdateType.modify ↦ do
    o ← order_of u.order_id b
    ok (set_order o (record (order b o) { qty = u.qty }) b)
  | MarketUpdateType.cancel ↦ do o ← order_of u.order_id b; remove_order o b
  | MarketUpdateType.clear ↦ clear_book b
  | _ ↦ ok b
]

-- `onMarketUpdate` for an update that is no trade
unfoldable pub on_book_change : MeMarketUpdate → MarketOrderBook → Outcome MarketOrderBook
unfolding change_book update_bbo
on_book_change u b0 = do
  b ← change_book u b0
  b ← update_bbo (is_bid_updated u b0) (is_ask_updated u b0) b
  ok (record b { notices = b.notices ++ order_book_update u.ticker_id u.price u.side ∷ [] })

-- `onMarketUpdate`
unfoldable pub on_market_update : MeMarketUpdate → MarketOrderBook → Outcome MarketOrderBook
unfolding on_book_change
on_market_update u b = elim u.kind [
  | MarketUpdateType.trade ↦ ok (record b { notices = b.notices ++ trade_update u ∷ [] })
  | _ ↦ on_book_change u b
]
