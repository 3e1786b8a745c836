-- ===== src/Exchange/OrderBook/Prices/Cases.antt =====
-- The cases of `add_orders_at_price`, which is `addOrdersAtPrice` of exchange/matcher/me_order_book.h.
use trading_ecosystem.Prelude.{ℕ, ◌≡◌, true, false, not, none, some, arith, ◌==◌, ok}
use trading_ecosystem.Common.Types.{Side, is_buy}
use trading_ecosystem.Exchange.OrderBook.State.{
  Book, level, set_level, set_next_entry, set_prev_entry, best, set_best, set_orders_at_price,
}
use trading_ecosystem.Exchange.OrderBook.Levels.{
  find_target, insert_before, insert_after, add_orders_at_price,
}
use trading_ecosystem.Exchange.OrderBook.Prices.{next_entry_of, prev_entry_of}
use trading_ecosystem.Exchange.OrderBook.Prices.Links.{data_of}

-- The book with the new level in the map from prices to levels
abbrev pub mapped : ℕ → Book → Book
mapped new b = set_orders_at_price (level b new).price (some new) b

-- What `add_orders_at_price` does, by the state of the side and by what the search finds
pub add_first : (new : ℕ) (b : Book) → Book
add_first new b =
    let b = set_best (level b new).side (some new) (mapped new b) in
    set_prev_entry new (some new) (set_next_entry new (some new) b)

pub add_empty :
    (new : ℕ) (b : Book)
    → best (level b new).side b ≡ none
    → add_orders_at_price new b ≡ ok (add_first new b)
unfolding add_orders_at_price add_first
add_empty new b e = ground arith

pub add_before :
    (new first u : ℕ) (b : Book)
    → best (level b new).side b ≡ some first
    → find_target (mapped new b) new first ≡ ok (false, u)
    → add_orders_at_price new b ≡ insert_before new first u (mapped new b)
unfolding add_orders_at_price
add_before new first u b e f = ground arith

pub add_after :
    (new first u : ℕ) (b : Book)
    → best (level b new).side b ≡ some first
    → find_target (mapped new b) new first ≡ ok (true, u)
    → add_orders_at_price new b ≡ insert_after new first u (mapped new b)
unfolding add_orders_at_price
add_after new first u b e f = ground arith

pub add_first-links :
    (new : ℕ) (b : Book)
    → (next_entry_of (add_first new b) new ≡ some new)
      × (prev_entry_of (add_first new b) new ≡ some new)
unfolding add_first set_level
add_first-links new b = ground arith

pub add_first-data_of :
    (new l : ℕ) (b : Book) → data_of (level (add_first new b) l) ≡ data_of (level b l)
unfolding add_first set_level
add_first-data_of new l b = ground arith

pub add_first-best : (new : ℕ) (b : Book) → best (level b new).side (add_first new b) ≡ some new
unfolding add_first set_level
add_first-best new b = ground arith

pub mapped-best : (new : ℕ) (side : Side) (b : Book) → best side (mapped new b) ≡ best side b
mapped-best new side b = ground arith

pub add_first-best_other :
    (side : Side) (new : ℕ) (b : Book)
    → is_buy side ≡ not (is_buy (level b new).side)
    → best side (add_first new b) ≡ best side b
unfolding add_first set_level
add_first-best_other side new b h = ground arith

pub add_first-other :
    (new i : ℕ) (b : Book) → (new == i) ≡ false → level (add_first new b) i ≡ level b i
unfolding add_first set_level
add_first-other new i b h = ground arith
