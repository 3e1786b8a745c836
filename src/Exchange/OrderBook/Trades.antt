-- ===== src/Exchange/OrderBook/Trades.antt =====
-- One call of `match` of exchange/matcher/me_order_book.cpp: its messages and the pool of orders.
use mathlib.Core.List.{append_assoc}
use trading_ecosystem.Prelude.{
  ℕ, ◌+◌, ◌-◌, min, ◌≡◌, refl, sym, ap, ◌∙◌, ◌≢◌, ◌⊎◌, inl, inr, Bool, true, not, List, [], ◌∷◌,
  ◌++◌, arith, ◌==◌, if◌then◌else◌, count_below, count_below-same, count_below-cleared, out_of_fuel,
  ok, failed, ◌>>=◌, >>=-eq-ok, >>=-≢,
}
use trading_ecosystem.Common.MemPool.{free_at}
use trading_ecosystem.Exchange.Messages.{Event}
use trading_ecosystem.Exchange.OrderBook.State.{Book, MeOrder, order, set_order, send}
use trading_ecosystem.Exchange.OrderBook.Orders.{remove_order}
use trading_ecosystem.Exchange.OrderBook.Removal.{Freed, remove_order-Freed, remove_order-fuel}
use trading_ecosystem.Exchange.OrderBook.Matching.{
  Taker, taker_fill, maker_fill, trade_update, maker_update, match_order,
}

-- The number of orders in the pool.
abbrev pub order_count : Book → ℕ
order_count b = count_below (λ i. not (free_at b.order_pool i)) b.order_pool.size

order_count-Freed : (o : ℕ) (b b' : Book) → Freed o b b' → order_count b' + 1 ≡ order_count b
order_count-Freed o b b' f =
    ap (λ n. count_below (λ i. not (free_at b'.order_pool i)) n + 1) f.size
    ∙ (count_below-cleared _ _ o b.order_pool.size f.bound (ap not f.used)
        (λ i. ground (arith, f.free i)))

-- The four messages of one match of a resting order with a taker that has `leaves` left.
abbrev pub trade_events : Taker → MeOrder → ℕ → List Event
trade_events t maker leaves =
    let fill = min leaves maker.qty in
    let after = record maker { qty = maker.qty - fill } in
    taker_fill t after fill (leaves - fill)
    ∷ maker_fill t after fill
    ∷ trade_update t after fill
    ∷ maker_update t after maker.qty
    ∷ []

pub record Matched (t : Taker) (o leaves : ℕ) (b : Book) (leaves' : ℕ) (b' : Book) : Type 0 where
  pub left : leaves' ≡ leaves - min leaves (order b o).qty
  pub events : b'.events ≡ b.events ++ trade_events t (order b o) leaves
  pub size : b'.order_pool.size ≡ b.order_pool.size
  pub shrinks : (leaves' ≡ 0) ⊎ (order_count b' + 1 ≡ order_count b)

-- The book in `match` before the order is removed.
abbrev reported : Taker → ℕ → ℕ → Book → Book
reported t o leaves b0 =
    let order_qty = (order b0 o).qty in
    let fill_qty = min leaves order_qty in
    let b = set_order o (record (order b0 o) { qty = order_qty - fill_qty }) b0 in
    let b = send (taker_fill t (order b o) fill_qty (leaves - fill_qty)) b in
    let b = send (maker_fill t (order b o) fill_qty) b in
    let b = send (trade_update t (order b o) fill_qty) b in
    send (maker_update t (order b o) order_qty) b

order-set_order : (o : ℕ) (node : MeOrder) (b : Book) → order (set_order o node b) o ≡ node
unfolding set_order
order-set_order o node b = ground arith

events-set_order : (o : ℕ) (node : MeOrder) (b : Book) → (set_order o node b).events ≡ b.events
unfolding set_order
events-set_order o node b = refl

reported-events :
    (t : Taker) (o leaves : ℕ) (b : Book)
    → (reported t o leaves b).events ≡ b.events ++ trade_events t (order b o) leaves
reported-events t o leaves b =
    rw (order-set_order o, events-set_order o, append_assoc, append_assoc, append_assoc) refl

reported-count :
    (t : Taker) (o leaves : ℕ) (b : Book) → order_count (reported t o leaves b) ≡ order_count b
unfolding set_order
reported-count t o leaves b = count_below-same _ _ b.order_pool.size (λ i l. ground arith)

reported-qty :
    (t : Taker) (o leaves : ℕ) (b : Book)
    → (order (reported t o leaves b) o).qty ≡ (order b o).qty - min leaves (order b o).qty
unfolding set_order
reported-qty t o leaves b = ground arith

reported-size :
    (t : Taker) (o leaves : ℕ) (b : Book)
    → (reported t o leaves b).order_pool.size ≡ b.order_pool.size
unfolding set_order
reported-size t o leaves b = refl

match_order-eq :
    (t : Taker) (o leaves : ℕ) (b : Book)
    → match_order t o leaves b ≡ (
        (if (order (reported t o leaves b) o).qty == 0
          then remove_order o (reported t o leaves b)
          else ok (reported t o leaves b))
        >>= λ b'. ok (leaves - min leaves (order b o).qty, b'))
unfolding match_order
match_order-eq t o leaves b = refl

after_removal :
    (t : Taker) (o leaves : ℕ) (b b' : Book) (gone : Bool)
    → ((order (reported t o leaves b) o).qty == 0) ≡ gone
    → (if gone then remove_order o (reported t o leaves b) else ok (reported t o leaves b)) ≡ ok b'
    → Matched t o leaves b (leaves - min leaves (order b o).qty) b'
after_removal t o leaves b b' true g e =
    let f = remove_order-Freed o (reported t o leaves b) b' e in
    record {
      left = refl;
      events = f.events ∙ reported-events t o leaves b;
      size = f.size ∙ reported-size t o leaves b;
      shrinks =
          inr (order_count-Freed o (reported t o leaves b) b' f ∙ reported-count t o leaves b);
    }
after_removal t o leaves b b' _ g e =
    let same : b' ≡ reported t o leaves b = cc in
    record {
      left = refl;
      events = ap (λ x. x.events) same ∙ reported-events t o leaves b;
      size = ap (λ x. x.order_pool.size) same ∙ reported-size t o leaves b;
      shrinks = inl (ground (arith, reported-qty t o leaves b));
    }

pub match_order-Matched :
    (t : Taker) (o leaves : ℕ) (b : Book) (r : ℕ × Book)
    → match_order t o leaves b ≡ ok r
    → Matched t o leaves b r.0 r.1
match_order-Matched t o leaves b r e =
    let (b', removed, e') =
      >>=-eq-ok
        (if (order (reported t o leaves b) o).qty == 0
          then remove_order o (reported t o leaves b)
          else ok (reported t o leaves b))
        _ (sym (match_order-eq t o leaves b) ∙ e) in
    let result : r ≡ (leaves - min leaves (order b o).qty, b') = cc in
    rw result
      (after_removal t o leaves b b' ((order (reported t o leaves b) o).qty == 0) refl removed)

pub match_order-fuel :
    (t : Taker) (o leaves : ℕ) (b : Book) → match_order t o leaves b ≢ failed out_of_fuel
match_order-fuel t o leaves b = rw (match_order-eq t o leaves b) (
    >>=-≢ out_of_fuel
      (if (order (reported t o leaves b) o).qty == 0
        then remove_order o (reported t o leaves b)
        else ok (reported t o leaves b))
      _ (λ e. ground (arith, remove_order-fuel o (reported t o leaves b))) (λ b' _ e. cc))
