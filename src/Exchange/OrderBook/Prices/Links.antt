-- ===== src/Exchange/OrderBook/Prices/Links.antt =====
-- What `insert_before`, `insert_after` and `add_orders_at_price` of
-- exchange/matcher/me_order_book.h do to the links of the levels.
use trading_ecosystem.Prelude.{ℕ, ◌≡◌, true, false, not, none, some, arith, ◌==◌, if◌then◌else◌, ok}
use trading_ecosystem.Common.Types.{Side, is_buy}
use trading_ecosystem.Common.Rings.Links.{IsLinkedIn}
use trading_ecosystem.Exchange.OrderBook.State.{
  Book, MeOrdersAtPrice, level, set_level, set_next_entry, set_prev_entry, best, set_best,
  points_to,
}
use trading_ecosystem.Exchange.OrderBook.Levels.{is_better, insert_before, insert_after}
use trading_ecosystem.Exchange.OrderBook.Prices.{next_entry_of, prev_entry_of}

-- A level without its links
abbrev pub data_of : MeOrdersAtPrice → MeOrdersAtPrice
data_of l = record l { prev_entry = none; next_entry = none }

-- A book in which a level is linked in
pub record IsInserted (b b' : Book) (new last target : ℕ) : Type 0 where
  pub links :
      IsLinkedIn
        (next_entry_of b)
        (prev_entry_of b)
        (next_entry_of b')
        (prev_entry_of b')
        last
        new
        target
  pub contents : (l : ℕ) → data_of (level b' l) ≡ data_of (level b l)

-- The book after `insert_before`, but for the best level
pub linked_before : (new target last : ℕ) (b : Book) → Book
linked_before new target last b =
    let b = set_prev_entry new (level b target).prev_entry b in
    let b = set_next_entry new (some target) b in
    let b = set_next_entry last (some new) b in set_prev_entry target (some new) b

pub linked_before-IsInserted :
    (new target last : ℕ) (b : Book)
    → prev_entry_of b target ≡ some last
    → (new == target) ≡ false
    → (new == last) ≡ false
    → IsInserted b (linked_before new target last b) new last target
unfolding linked_before set_level
linked_before-IsInserted new target last b p nt nl = record {
  links = record {
    next_last = ground arith;
    next_new = ground arith;
    prev_new = ground arith;
    prev_first = ground arith;
    next_other = λ i h k. ground arith;
    prev_other = λ i h k. ground arith;
  };
  contents = λ l. ground arith;
}

pub insert_before-linked_before :
    (new first target last : ℕ) (b : Book)
    → prev_entry_of b target ≡ some last
    → (new == target) ≡ false
    → is_better (level b new) (level b first) ≡ false
    → insert_before new first target b ≡ ok (linked_before new target last b)
unfolding insert_before linked_before set_level
insert_before-linked_before new first target last b p nt worse = ground arith

-- The book after `insert_after` at the end of the list
pub linked_after : (new first last : ℕ) (b : Book) → Book
linked_after new first last b =
    let b = set_prev_entry new (some last) b in
    let b = set_prev_entry first (some new) b in
    let b = set_next_entry new (level b last).next_entry b in set_next_entry last (some new) b

pub linked_after-IsInserted :
    (new first last : ℕ) (b : Book)
    → next_entry_of b last ≡ some first
    → (new == first) ≡ false
    → (new == last) ≡ false
    → IsInserted b (linked_after new first last b) new last first
unfolding linked_after set_level
linked_after-IsInserted new first last b n nf nl = record {
  links = record {
    next_last = ground arith;
    next_new = ground arith;
    prev_new = ground arith;
    prev_first = ground arith;
    next_other = λ i h k. ground arith;
    prev_other = λ i h k. ground arith;
  };
  contents = λ l. ground arith;
}

pub insert_after-linked_after :
    (new first last : ℕ) (b : Book)
    → prev_entry_of b first ≡ some last
    → next_entry_of b last ≡ some first
    → (new == last) ≡ false
    → insert_after new first first b ≡ ok (linked_after new first last b)
unfolding insert_after linked_after set_level
insert_after-linked_after new first last b p n nl = ground arith

-- The book after `insert_before` with a new best level
pub linked_first : (new first last : ℕ) (b : Book) → Book
linked_first new first last b =
    let b = linked_before new first last b in
    let next = (level b first).next_entry in
    let b = set_next_entry first (if points_to next first then some new else next) b in
    set_best (level b new).side (some new) b

pub insert_before-linked_first :
    (new first last : ℕ) (b : Book)
    → prev_entry_of b first ≡ some last
    → (new == first) ≡ false
    → is_better (level b new) (level b first) ≡ true
    → insert_before new first first b ≡ ok (linked_first new first last b)
unfolding insert_before linked_first linked_before set_level
insert_before-linked_first new first last b p nf better = ground arith

pub linked_first-alone :
    (new first : ℕ) (b : Book)
    → prev_entry_of b first ≡ some first
    → (new == first) ≡ false
    → IsInserted b (linked_first new first first b) new first first
unfolding linked_first linked_before set_level
linked_first-alone new first b p nf = record {
  links = record {
    next_last = ground arith;
    next_new = ground arith;
    prev_new = ground arith;
    prev_first = ground arith;
    next_other = λ i h k. ground arith;
    prev_other = λ i h k. ground arith;
  };
  contents = λ l. ground arith;
}

pub linked_first-others :
    (new first last y : ℕ) (b : Book)
    → prev_entry_of b first ≡ some last
    → (new == first) ≡ false
    → (new == last) ≡ false
    → (last == first) ≡ false
    → next_entry_of b first ≡ some y
    → (y == first) ≡ false
    → IsInserted b (linked_first new first last b) new last first
unfolding linked_first linked_before set_level
linked_first-others new first last y b p nf nl lf n yf = record {
  links = record {
    next_last = ground arith;
    next_new = ground arith;
    prev_new = ground arith;
    prev_first = ground arith;
    next_other = λ i h k. ground arith;
    prev_other = λ i h k. ground arith;
  };
  contents = λ l. ground arith;
}

pub linked_before-best :
    (side : Side) (new target last : ℕ) (b : Book)
    → best side (linked_before new target last b) ≡ best side b
unfolding linked_before set_level
linked_before-best side new target last b = ground arith

pub linked_after-best :
    (side : Side) (new first last : ℕ) (b : Book)
    → best side (linked_after new first last b) ≡ best side b
unfolding linked_after set_level
linked_after-best side new first last b = ground arith

pub linked_first-best :
    (new first last : ℕ) (b : Book)
    → best (level b new).side (linked_first new first last b) ≡ some new
unfolding linked_first linked_before set_level
linked_first-best new first last b = ground arith

pub linked_first-best_other :
    (side : Side) (new first last : ℕ) (b : Book)
    → is_buy side ≡ not (is_buy (level b new).side)
    → best side (linked_first new first last b) ≡ best side b
unfolding linked_first linked_before set_level
linked_first-best_other side new first last b h = ground arith
