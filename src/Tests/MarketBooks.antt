-- ===== src/Tests/MarketBooks.antt =====
-- The trading client's order book at small inputs.
use trading_ecosystem.Prelude.{
  ◌+◌, ◌≡◌, refl, not, none, some, [], ◌∷◌, arith, ◌==◌, if◌then◌else◌, ok,
}
use trading_ecosystem.Prelude.Int.{pos}
use trading_ecosystem.Common.Types.{buy, sell}
use trading_ecosystem.Common.MemPool.{block}
use trading_ecosystem.Trading.MarketOrderBook.State.{MarketOrderBook}
use trading_ecosystem.Trading.MarketOrderBook.Updates.{clear_book}
use trading_ecosystem.Trading.MarketOrderBook.Clear.Book.{IsBook, IsCleared, clear_book-IsCleared}

-- A bid level in block 2, two ask levels in blocks 0 and 1, and an order under the identifier 7.
abbrev three_levels : MarketOrderBook
three_levels = record {
  oid_to_order = λ o. if o == 7 then some 0 else none;
  orders_at_price_pool = record {
    size = 4;
    store = λ i.
        let other = if i == 0 then 1 else if i == 1 then 0 else i in
        block
          (record {
            side = if i == 2 then buy else sell;
            price = pos (if i == 2 then 99 else 101 + i);
            first_mkt_order = some 0;
            prev_entry = some other;
            next_entry = some other;
          })
          (i == 3);
    next_free_index = 3;
  };
  bids_by_price = some 2;
  asks_by_price = some 0;
  price_orders_at_price = λ i. if i == 101 then some 0 else none;
  order_pool = record {
    size = 2;
    store = λ i.
        block
          (record {
            order_id = 7;
            side = sell;
            price = pos 101;
            qty = 5;
            priority = 1;
            prev_order = some 0;
            next_order = some 0;
          })
          (not (i == 0));
    next_free_index = 1;
  };
  bbo = record { bid_price = pos 99; ask_price = pos 101; bid_qty = 5; ask_qty = 5 };
  notices = [];
}

three_levels-IsBook : IsBook three_levels (2 ∷ []) (0 ∷ 1 ∷ [])
three_levels-IsBook = record {
  levels_valid = record { cursor_in = omega arith; cursor_free = refl };
  orders_valid = record { cursor_in = omega arith; cursor_free = refl };
  bid_side = record {
    ring = (refl, (refl, refl));
    distinct = (tt, tt);
    used = ((omega arith, refl), tt);
  };
  ask_side = record {
    ring = (refl, (refl, (refl, (refl, refl))));
    distinct = ((refl, tt), (tt, tt));
    used = ((omega arith, refl), ((omega arith, refl), tt));
  };
  apart = ((refl, tt), ((refl, tt), tt));
  orders = record { used = λ o p low e. ground arith; apart = λ o o' p e e'. ground arith };
}

clear_book-IsCleared_example :
    (b' : MarketOrderBook) × (clear_book three_levels ≡ ok b')
    × IsCleared three_levels b' (2 ∷ []) (0 ∷ 1 ∷ [])
clear_book-IsCleared_example =
    clear_book-IsCleared three_levels (2 ∷ []) (0 ∷ 1 ∷ []) three_levels-IsBook
