-- ===== src/Exchange/OrderBook/Levels.antt =====
-- `addOrdersAtPrice` and `removeOrdersAtPrice` of exchange/matcher/me_order_book.h: the circular list
-- of price levels of each side, best price first, and the map from prices to levels.
use trading_ecosystem.Prelude.{
  ℕ, zero, suc, ◌+◌, Bool, true, false, not, ◌&&◌, ◌||◌, none, some, ◌==◌, if◌then◌else◌,
  out_of_fuel, Outcome, ok, failed, ◌>>=◌, deref,
}
use trading_ecosystem.Prelude.Int.{ℤ, ltb_ℤ}
use trading_ecosystem.Common.Types.{Side, is_buy, is_sell}
use trading_ecosystem.Common.MemPool.{deallocate}
use trading_ecosystem.Exchange.OrderBook.State.{
  Book, MeOrdersAtPrice, level, set_level, set_prev_entry, set_next_entry, best, set_best,
  get_orders_at_price, set_orders_at_price, points_to,
}

-- The test that a level belongs behind another: a higher ask, or a lower bid.
abbrev pub is_behind : MeOrdersAtPrice → MeOrdersAtPrice → Bool
is_behind new target =
    (is_sell new.side && ltb_ℤ target.price new.price)
    || (is_buy new.side && ltb_ℤ new.price target.price)

-- The test that a level belongs in front of the best one.
abbrev pub is_better : MeOrdersAtPrice → MeOrdersAtPrice → Bool
is_better new target =
    (is_buy new.side && ltb_ℤ target.price new.price)
    || (is_sell new.side && ltb_ℤ new.price target.price)

-- `while (add_after && target != best_orders_by_price)`; the result is `add_after` and `target`.
unfoldable pub walk : ℕ → Book → ℕ → ℕ → Bool → ℕ → Outcome (Bool × ℕ)
walk zero b new first add_after target = failed out_of_fuel
walk (suc fuel) b new first add_after target = elim (add_after && not (target == first)) [
  | false ↦ ok (add_after, target)
  | true ↦ elim (is_behind (level b new) (level b target)) [
    | false ↦ walk fuel b new first false target
    | true ↦ deref (level b target).next_entry >>= λ next. walk fuel b new first true next
  ]
]

-- The search for the place of a new level. It visits each level once, and there are no more levels
-- than blocks in the pool.
unfoldable pub find_target : Book → ℕ → ℕ → Outcome (Bool × ℕ)
unfolding walk
find_target b new first =
    if is_behind (level b new) (level b first)
    then (do
      target ← deref (level b first).next_entry
      walk (b.orders_at_price_pool.size + 2) b new first (is_behind (level b new) (level b target))
          target)
    else walk (b.orders_at_price_pool.size + 2) b new first false first

-- "add new_orders_at_price after target"
unfoldable pub insert_after : ℕ → ℕ → ℕ → Book → Outcome Book
unfolding set_level
insert_after new first target b = do
  target ← deref (if target == first then (level b first).prev_entry else some target)
  let b = set_prev_entry new (some target) b
  after ← deref (level b target).next_entry
  let b = set_prev_entry after (some new) b
  let b = set_next_entry new (level b target).next_entry b
  ok (set_next_entry target (some new) b)

-- "add new_orders_at_price before target"
unfoldable pub insert_before : ℕ → ℕ → ℕ → Book → Outcome Book
unfolding set_level
insert_before new first target b = do
  let b = set_prev_entry new (level b target).prev_entry b
  let b = set_next_entry new (some target) b
  before ← deref (level b target).prev_entry
  let b = set_next_entry before (some new) b
  let b = set_prev_entry target (some new) b
  ok (
      if is_better (level b new) (level b first)
      then (let next = (level b target).next_entry in
          let b = set_next_entry target (if points_to next first then some new else next) b in
          set_best (level b new).side (some new) b)
      else b)

unfoldable pub add_orders_at_price : ℕ → Book → Outcome Book
unfolding find_target insert_after insert_before set_level
add_orders_at_price new b0 =
    let b = set_orders_at_price (level b0 new).price (some new) b0 in
    elim (best (level b new).side b) [
      | none ↦
          let b = set_best (level b new).side (some new) b in
          ok (set_prev_entry new (some new) (set_next_entry new (some new) b))
      | some first ↦ do
        (add_after, target) ← find_target b new first
        if add_after then insert_after new first target b else insert_before new first target b
    ]

-- Takes a level out of the list of its side.
unfoldable pub unlink_level : Side → ℕ → Book → Outcome Book
unfolding set_level
unlink_level side l b0 = do
  before ← deref (level b0 l).prev_entry
  let b = set_next_entry before (level b0 l).next_entry b0
  after ← deref (level b l).next_entry
  let b = set_prev_entry after (level b l).prev_entry b
  let b = if points_to (best side b0) l then set_best side (level b l).next_entry b else b
  ok (set_prev_entry l none (set_next_entry l none b))

unfoldable pub remove_orders_at_price : Side → ℤ → Book → Outcome Book
unfolding unlink_level
remove_orders_at_price side price b = do
  l ← deref (get_orders_at_price price b)
  b ←
      (if points_to (level b l).next_entry l
        then ok (set_best side none b)
        else unlink_level side l b)
  let b = set_orders_at_price price none b
  pool ← deallocate b.orders_at_price_pool l
  ok (record b { orders_at_price_pool = pool })
