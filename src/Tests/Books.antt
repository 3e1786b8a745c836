-- ===== src/Tests/Books.antt =====
-- The order book at small inputs.
use mathlib.Core.Path.{subst}
use trading_ecosystem.Prelude.{
  ℕ, ◌+◌, ◌-◌, ◌≡◌, refl, sym, inl, inr, not, ◌&&◌, none, some, List, [], ◌∷◌, arith, ltb, ◌==◌,
  if◌then◌else◌, length, update, Outcome, ok, failed,
}
use trading_ecosystem.Prelude.Int.{pos}
use trading_ecosystem.Common.Types.{buy, sell}
use trading_ecosystem.Common.MemPool.{block, deallocate}
use trading_ecosystem.Exchange.OrderBook.State.{Book, MeOrder, order}
use trading_ecosystem.Exchange.OrderBook.Matching.{
  Taker, cancel_order, match_order, check_for_match,
}
use trading_ecosystem.Exchange.OrderBook.Orders.{
  append_order, get_next_priority, remove_order, unlink_order, set_client_order,
}
use trading_ecosystem.Exchange.OrderBook.Conservation.{
  Returns, Conserves, check_for_match-Conserves,
}
use trading_ecosystem.Prelude.{false}
use trading_ecosystem.Exchange.OrderBook.State.{level}
use trading_ecosystem.Exchange.OrderBook.Levels.{add_orders_at_price, unlink_level}
use trading_ecosystem.Exchange.OrderBook.Prices.Remove.{unlink_level-HasLevels}
use trading_ecosystem.Exchange.OrderBook.Prices.{insert_level}
use trading_ecosystem.Exchange.OrderBook.Prices.Links as Levels
use trading_ecosystem.Exchange.OrderBook.Prices.Insert.{HasLevels}
use trading_ecosystem.Exchange.OrderBook.Prices.Add.{add_orders_at_price-insert_level}
use trading_ecosystem.Common.Rings.{Fresh}
use trading_ecosystem.Exchange.OrderBook.Fifo.{Represents, Represents-update, update-cases, data_of}
use trading_ecosystem.Exchange.OrderBook.Fifo.Append.{append_order-Represents}
use trading_ecosystem.Exchange.OrderBook.Fifo.Priority.{IsRising, append_order-IsRising}
use trading_ecosystem.Exchange.OrderBook.Fifo.Unlink.{unlink_order-Represents}
use trading_ecosystem.Exchange.OrderBook.Cancel.{Answer, cancel_order-Answer}

abbrev resting : ℕ → ℕ → MeOrder
resting o qty = record {
  ticker_id = 0;
  client_id = 2;
  client_order_id = o;
  market_order_id = o + 1;
  side = sell;
  price = pos 101;
  qty = qty;
  priority = o + 1;
  prev_order = some (1 - o);
  next_order = some (1 - o);
}

-- Two asks of 5 and 7 at one price.
abbrev two_asks : Book
two_asks = record {
  ticker_id = 0;
  cid_oid_to_order = λ c i. if c == 2 && ltb i 2 then some i else none;
  orders_at_price_pool = record {
    size = 256;
    store = λ i.
        block
          (record {
            side = sell;
            price = pos 101;
            first_me_order = some 0;
            prev_entry = some 0;
            next_entry = some 0;
          })
          (not (i == 0));
    next_free_index = 1;
  };
  bids_by_price = none;
  asks_by_price = some 0;
  price_orders_at_price = λ i. if i == 101 then some 0 else none;
  order_pool = record {
    size = 4;
    store = λ i.
        block (if i == 0 then resting 0 5 else if i == 1 then resting 1 7 else resting 2 4)
          (not (ltb i 2));
    next_free_index = 2;
  };
  next_market_order_id = 3;
  events = [];
}

abbrev buyer : Taker
buyer = record {
  client_id = 4;
  client_order_id = 9;
  ticker_id = 0;
  side = buy;
  price = pos 101;
  market_order_id = 3;
}

check_for_match-Conserves_example :
    Returns (Conserves buyer 9 two_asks) (check_for_match buyer 9 two_asks)
check_for_match-Conserves_example = check_for_match-Conserves buyer 9 two_asks

cancel_order-Answer_example : Answer 2 1 0 two_asks (cancel_order 2 1 0 two_asks)
cancel_order-Answer_example = cancel_order-Answer 2 1 0 two_asks

-- What is left of an order, the resting quantities and the number of messages.
summary : Outcome (ℕ × Book) → List ℕ
summary (ok (left, b)) = left ∷ (order b 1).qty ∷ length b.events ∷ []
summary (failed f) = []

-- The buy takes the first ask and a part of the second.
crossed : summary (check_for_match buyer 9 two_asks) ≡ 0 ∷ 3 ∷ 8 ∷ []
unfolding summary check_for_match match_order remove_order unlink_order set_client_order deallocate
crossed = refl

event_count : Outcome Book → List ℕ
event_count (ok b) = length b.events ∷ []
event_count (failed f) = []

cancelled : event_count (cancel_order 2 1 0 two_asks) ≡ 2 ∷ []
unfolding event_count cancel_order remove_order unlink_order set_client_order deallocate
cancelled = refl

-- The two asks as the list of level 0
abbrev two_orders : ℕ → List ℕ
two_orders = update (λ l. []) 0 (0 ∷ 1 ∷ [])

two_asks-Represents : Represents two_asks two_orders
two_asks-Represents =
    Represents-update two_asks two_asks (λ l. []) 0 (0 ∷ 1 ∷ [])
      (record { linked = λ l. tt; first = λ l. tt; distinct = λ l. tt; apart = λ l k. inr tt })
      (refl, (refl, (refl, refl))) refl ((refl, tt), (tt, tt)) (λ k h. tt) (λ k h. refl)
      (λ k h. (tt, (tt, tt)))

two_is_new : (k : ℕ) → Fresh 2 (two_orders k)
two_is_new k = elim (update-cases (λ l. []) 0 k (0 ∷ 1 ∷ [])) [
  | inl (e, u) ↦ subst (Fresh 2) (sym u) (refl, (refl, tt))
  | inr (e, u) ↦ subst (Fresh 2) (sym u) tt
]

append_order-Represents_example :
    (b' : Book) × (append_order 2 0 two_asks ≡ ok b')
    × Represents b' (update two_orders 0 (0 ∷ 1 ∷ 2 ∷ []))
    × ((i : ℕ) → data_of (order b' i) ≡ data_of (order two_asks i))
append_order-Represents_example =
    append_order-Represents 2 0 0 (1 ∷ []) two_asks two_orders two_asks-Represents refl two_is_new

third_priority : get_next_priority (pos 101) two_asks ≡ ok 3
unfolding get_next_priority
third_priority = refl

append_order-IsRising_example :
    (b' : Book) × (append_order 2 0 two_asks ≡ ok b')
    × Represents b' (update two_orders 0 (0 ∷ 1 ∷ 2 ∷ []))
    × IsRising (λ i. (order b' i).priority) (0 ∷ 1 ∷ 2 ∷ [])
append_order-IsRising_example =
    append_order-IsRising (pos 101) 2 0 0 (1 ∷ []) two_asks two_orders two_asks-Represents refl
      two_is_new refl (omega arith, tt) third_priority (omega arith, (omega arith, tt))

unlink_order-Represents_example :
    (b' : Book) × (unlink_order 0 0 two_asks ≡ ok b')
    × Represents b' (update two_orders 0 (1 ∷ []))
    × ((i : ℕ) → data_of (order b' i) ≡ data_of (order two_asks i))
unlink_order-Represents_example =
    unlink_order-Represents [] 0 (1 ∷ []) 0 two_asks two_orders two_asks-Represents refl
      (omega arith)

-- A third ask at 99, in block 1
abbrev with_level : Book
with_level = record two_asks {
  orders_at_price_pool = record (two_asks.orders_at_price_pool) {
    store = update two_asks.orders_at_price_pool.store 1 (
        block
          (record {
            side = sell;
            price = pos 99;
            first_me_order = some 2;
            prev_entry = none;
            next_entry = none;
          })
          false);
  };
}

add_orders_at_price-insert_level_example :
    (b' : Book) × (add_orders_at_price 1 with_level ≡ ok b')
    × HasLevels b' sell (insert_level (level with_level) 1 (0 ∷ []))
    × HasLevels b' buy []
    × ((l : ℕ) → Levels.data_of (level b' l) ≡ Levels.data_of (level with_level l))
add_orders_at_price-insert_level_example =
    add_orders_at_price-insert_level sell 1 (0 ∷ []) buy [] with_level
      (record {
        linked = (refl, refl);
        first = refl;
        distinct = (tt, tt);
        sides = (refl, tt);
        sorted = tt;
      })
      (record { linked = tt; first = refl; distinct = tt; sides = tt; sorted = tt }) (inr refl) refl
      refl (refl, tt) (tt, (tt, tt)) (refl, tt) (omega arith)

inserted : insert_level (level with_level) 1 (0 ∷ []) ≡ 1 ∷ 0 ∷ []
unfolding insert_level
inserted = refl

-- Asks at 101 and 103, in blocks 0 and 1
abbrev two_levels : Book
two_levels = record two_asks {
  orders_at_price_pool = record (two_asks.orders_at_price_pool) {
    store = λ i.
        block
          (record {
            side = sell;
            price = if i == 0 then pos 101 else pos 103;
            first_me_order = some i;
            prev_entry = some (1 - i);
            next_entry = some (1 - i);
          })
          false;
  };
}

unlink_level-HasLevels_example :
    (b' : Book) × (unlink_level sell 0 two_levels ≡ ok b')
    × HasLevels b' sell (1 ∷ [])
    × HasLevels b' buy []
    × ((i : ℕ) → Levels.data_of (level b' i) ≡ Levels.data_of (level two_levels i))
unlink_level-HasLevels_example =
    unlink_level-HasLevels sell [] 0 (1 ∷ []) buy [] two_levels
      (record {
        linked = (refl, (refl, (refl, refl)));
        first = refl;
        distinct = ((refl, tt), (tt, tt));
        sides = (refl, (refl, tt));
        sorted = (refl, tt);
      })
      (record { linked = tt; first = refl; distinct = tt; sides = tt; sorted = tt }) refl
      (tt, (tt, tt)) (omega arith)
