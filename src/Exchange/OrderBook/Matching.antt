-- ===== src/Exchange/OrderBook/Matching.antt =====
-- `match`, `checkForMatch`, `add` and `cancel` of exchange/matcher/me_order_book.cpp.
use trading_ecosystem.Prelude.{
  ℕ, zero, suc, ◌+◌, ◌-◌, ◌%◌, ◌^◌, min, Bool, true, false, Option, none, some, ltb, ◌==◌,
  if◌then◌else◌, out_of_fuel, Outcome, ok, failed, ◌>>=◌, ◌>>◌, in_range, deref,
}
use trading_ecosystem.Prelude.Int.{ℤ, ltb_ℤ}
use trading_ecosystem.Common.Types
use trading_ecosystem.Common.Types.{
  Side, buy, sell, is_buy, opposite, me_max_num_clients, me_max_order_ids, order_id_invalid,
  qty_invalid, price_invalid, priority_invalid,
}
use trading_ecosystem.Common.MemPool.{allocate}
use trading_ecosystem.Exchange.Messages.{
  Event, response, update as market_update, accepted, canceled, filled, cancel_rejected, add,
  modify, cancel, trade,
}
use trading_ecosystem.Exchange.OrderBook.State.{Book, MeOrder, level, order, set_order, best, send}
use trading_ecosystem.Exchange.OrderBook.Orders.{get_next_priority, add_order, remove_order}

-- An incoming order: the parameters that `match` and `checkForMatch` have in common.
pub record Taker : Type 0 where
  pub client_id : ℕ
  pub client_order_id : ℕ
  pub ticker_id : ℕ
  pub side : Side
  pub price : ℤ
  pub market_order_id : ℕ

-- The fill reported to the incoming and to the resting order, and the trade.
abbrev pub taker_fill : Taker → MeOrder → ℕ → ℕ → Event
taker_fill t o fill_qty leaves_qty = response (record {
  kind = filled;
  client_id = t.client_id;
  ticker_id = t.ticker_id;
  client_order_id = t.client_order_id;
  market_order_id = t.market_order_id;
  side = t.side;
  price = o.price;
  exec_qty = fill_qty;
  leaves_qty = leaves_qty;
})

abbrev pub maker_fill : Taker → MeOrder → ℕ → Event
maker_fill t o fill_qty = response (record {
  kind = filled;
  client_id = o.client_id;
  ticker_id = t.ticker_id;
  client_order_id = o.client_order_id;
  market_order_id = o.market_order_id;
  side = o.side;
  price = o.price;
  exec_qty = fill_qty;
  leaves_qty = o.qty;
})

abbrev pub trade_update : Taker → MeOrder → ℕ → Event
trade_update t o fill_qty = market_update (record {
  kind = trade;
  order_id = order_id_invalid;
  ticker_id = t.ticker_id;
  side = t.side;
  price = o.price;
  qty = fill_qty;
  priority = priority_invalid;
})

-- What the market is told of the resting order: that it is gone, or what is left of it.
abbrev pub maker_update : Taker → MeOrder → ℕ → Event
maker_update t o order_qty = market_update (record {
  kind = if o.qty == 0 then cancel else modify;
  order_id = o.market_order_id;
  ticker_id = t.ticker_id;
  side = o.side;
  price = o.price;
  qty = if o.qty == 0 then order_qty else o.qty;
  priority = if o.qty == 0 then priority_invalid else o.priority;
})

-- `match`; the result is `*leaves_qty` and the book.
unfoldable pub match_order : Taker → ℕ → ℕ → Book → Outcome (ℕ × Book)
unfolding set_order
match_order t o leaves_qty b0 = do
  let order_qty = (order b0 o).qty
  let fill_qty = min leaves_qty order_qty
  let leaves_qty = leaves_qty - fill_qty
  let b = set_order o (record (order b0 o) { qty = order_qty - fill_qty }) b0
  let b = send (taker_fill t (order b o) fill_qty leaves_qty) b
  let b = send (maker_fill t (order b o) fill_qty) b
  let b = send (trade_update t (order b o) fill_qty) b
  let b = send (maker_update t (order b o) order_qty) b
  b ← (if (order b o).qty == 0 then remove_order o b else ok b)
  ok (leaves_qty, b)

-- The test on which the loops of `checkForMatch` stop: the incoming price does not reach.
abbrev pub is_out_of_reach : Taker → MeOrder → Bool
is_out_of_reach t o = if is_buy t.side then ltb_ℤ t.price o.price else ltb_ℤ o.price t.price

-- `while (leaves_qty && asks_by_price_)` for a buy, `while (leaves_qty && bids_by_price_)` for a sell
unfoldable pub match_loop : ℕ → Taker → ℕ → Book → Outcome (ℕ × Book)
match_loop zero t leaves_qty b = failed out_of_fuel
match_loop (suc fuel) t leaves_qty b = elim (leaves_qty == 0) [
  | true ↦ ok (leaves_qty, b)
  | false ↦ elim (best (opposite t.side) b) [
    | none ↦ ok (leaves_qty, b)
    | some l ↦ deref (level b l).first_me_order >>= λ o. elim (is_out_of_reach t (order b o)) [
      | true ↦ ok (leaves_qty, b)
      | false ↦ match_order t o leaves_qty b >>= λ r. match_loop fuel t r.0 r.1
    ]
  ]
]

-- `checkForMatch`. Every round but the last takes an order out of the pool. The parameter
-- `new_market_order_id` has the 32-bit type `Qty`, so the identifier is cut.
unfoldable pub check_for_match : Taker → ℕ → Book → Outcome (ℕ × Book)
unfolding match_loop
check_for_match t qty b =
    let cut = record t { market_order_id = t.market_order_id % 2 ^ 32 } in
    elim t.side [
      | Types.Side.buy ↦ match_loop (b.order_pool.size + 2) cut qty b
      | Types.Side.sell ↦ match_loop (b.order_pool.size + 2) cut qty b
      | Types.Side.invalid ↦ ok (qty, b)
      | Types.Side.max ↦ ok (qty, b)
    ]

unfoldable pub accepted_response : Taker → ℕ → Event
accepted_response t qty = response (record {
  kind = accepted;
  client_id = t.client_id;
  ticker_id = t.ticker_id;
  client_order_id = t.client_order_id;
  market_order_id = t.market_order_id;
  side = t.side;
  price = t.price;
  exec_qty = 0;
  leaves_qty = qty;
})

-- The part of `add` behind `checkForMatch`: what is left of the order rests in the book.
unfoldable pub rest_order : Taker → ℕ → Book → Outcome Book
rest_order t leaves_qty b = do
  priority ← get_next_priority t.price b
  (o, pool) ← allocate b.order_pool (record {
    ticker_id = t.ticker_id;
    client_id = t.client_id;
    client_order_id = t.client_order_id;
    market_order_id = t.market_order_id;
    side = t.side;
    price = t.price;
    qty = leaves_qty;
    priority = priority;
    prev_order = none;
    next_order = none;
  })
  b ← add_order o (record b { order_pool = pool })
  ok (
      send
        (market_update (record {
          kind = add;
          order_id = t.market_order_id;
          ticker_id = t.ticker_id;
          side = t.side;
          price = t.price;
          qty = leaves_qty;
          priority = priority;
        }))
        b)

-- `add`
unfoldable pub add_new : ℕ → ℕ → ℕ → Side → ℤ → ℕ → Book → Outcome Book
unfolding accepted_response check_for_match rest_order
add_new client_id client_order_id ticker_id side price qty b0 = do
  let t : Taker = record {
    client_id = client_id;
    client_order_id = client_order_id;
    ticker_id = ticker_id;
    side = side;
    price = price;
    market_order_id = b0.next_market_order_id;
  }
  let b = record b0 { next_market_order_id = (b0.next_market_order_id + 1) % 2 ^ 64 }
  let b = send (accepted_response t qty) b
  (leaves_qty, b) ← check_for_match t qty b
  if leaves_qty == 0 then ok b else rest_order t leaves_qty b

abbrev pub cancel_rejected_response : ℕ → ℕ → ℕ → Event
cancel_rejected_response client_id order_id ticker_id = response (record {
  kind = cancel_rejected;
  client_id = client_id;
  ticker_id = ticker_id;
  client_order_id = order_id;
  market_order_id = order_id_invalid;
  side = Types.Side.invalid;
  price = price_invalid;
  exec_qty = qty_invalid;
  leaves_qty = qty_invalid;
})

abbrev pub canceled_response : ℕ → ℕ → ℕ → MeOrder → Event
canceled_response client_id order_id ticker_id o = response (record {
  kind = canceled;
  client_id = client_id;
  ticker_id = ticker_id;
  client_order_id = order_id;
  market_order_id = o.market_order_id;
  side = o.side;
  price = o.price;
  exec_qty = qty_invalid;
  leaves_qty = o.qty;
})

abbrev pub cancel_update : ℕ → MeOrder → Event
cancel_update ticker_id o = market_update (record {
  kind = cancel;
  order_id = o.market_order_id;
  ticker_id = ticker_id;
  side = o.side;
  price = o.price;
  qty = 0;
  priority = o.priority;
})

-- The order that a cancel names; for a client in range the order's index is not checked before `at`.
unfoldable pub find_order : ℕ → ℕ → Book → Outcome (Option ℕ)
find_order client_id order_id b =
    if ltb client_id me_max_num_clients
    then (do in_range (ltb order_id me_max_order_ids); ok (b.cid_oid_to_order client_id order_id))
    else ok none

-- `cancel`
unfoldable pub cancel_order : ℕ → ℕ → ℕ → Book → Outcome Book
unfolding find_order
cancel_order client_id order_id ticker_id b = do
  found ← find_order client_id order_id b
  elim found [
    | none ↦ ok (send (cancel_rejected_response client_id order_id ticker_id) b)
    | some o ↦ do
      let exchange_order = order b o
      b ← remove_order o b
      let b = send (cancel_update ticker_id exchange_order) b
      ok (send (canceled_response client_id order_id ticker_id exchange_order) b)
  ]
