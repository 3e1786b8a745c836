-- ===== src/Exchange/OrderBook/Removal.antt =====
-- `removeOrder` of exchange/matcher/me_order_book.h and the pool of orders.
use trading_ecosystem.Prelude.{
  ℕ, ◌<◌, ◌≡◌, sym, ap, ◌∙◌, ◌≢◌, Bool, true, false, Option, none, arith, ◌==◌, if◌then◌else◌,
  out_of_fuel, Outcome, ok, failed, ◌>>=◌, deref, >>=-eq-ok, >>=-≢, deref-fuel,
}
use trading_ecosystem.Prelude.Int.{ℤ}
use trading_ecosystem.Common.Types.{Side}
use trading_ecosystem.Common.MemPool.{MemPool, deallocate, free_at}
use trading_ecosystem.Exchange.OrderBook.State.{
  Book, level, order, set_best, points_to, get_orders_at_price,
}
use trading_ecosystem.Exchange.OrderBook.Levels.{unlink_level, remove_orders_at_price}
use trading_ecosystem.Exchange.OrderBook.Orders.{set_client_order, unlink_order, remove_order}

-- The same orders are allocated, and nothing was sent.
pub record Kept (b b' : Book) : Type 0 where
  pub size : b'.order_pool.size ≡ b.order_pool.size
  pub free : (i : ℕ) → free_at b'.order_pool i ≡ free_at b.order_pool i
  pub events : b'.events ≡ b.events

-- The order at `o` was allocated and is not any more.
pub record Freed (o : ℕ) (b b' : Book) : Type 0 where
  pub bound : o < b.order_pool.size
  pub used : free_at b.order_pool o ≡ false
  pub size : b'.order_pool.size ≡ b.order_pool.size
  pub free : (i : ℕ) → free_at b'.order_pool i ≡ (if o == i then true else free_at b.order_pool i)
  pub events : b'.events ≡ b.events

unlink_order-Kept : (o l : ℕ) (b b' : Book) → unlink_order o l b ≡ ok b' → Kept b b'
unfolding unlink_order
unlink_order-Kept o l b b' e = record {
  size = ground arith;
  free = λ i. ground arith;
  events = ground arith;
}

unlink_order-fuel : (o l : ℕ) (b : Book) → unlink_order o l b ≢ failed out_of_fuel
unfolding unlink_order
unlink_order-fuel o l b e = ground arith

unlink_level-same :
    (side : Side) (l : ℕ) (b b' : Book)
    → unlink_level side l b ≡ ok b'
    → (b'.order_pool ≡ b.order_pool) × (b'.events ≡ b.events)
unfolding unlink_level
unlink_level-same side l b b' e = ground arith

unlink_level-fuel : (side : Side) (l : ℕ) (b : Book) → unlink_level side l b ≢ failed out_of_fuel
unfolding unlink_level
unlink_level-fuel side l b e = ground arith

deallocate-fuel : {T : Type 0} (pool : MemPool T) (i : ℕ) → deallocate pool i ≢ failed out_of_fuel
unfolding deallocate
deallocate-fuel pool i e = ground arith

remove_orders_at_price-same :
    (side : Side) (price : ℤ) (b b' : Book)
    → remove_orders_at_price side price b ≡ ok b'
    → (b'.order_pool ≡ b.order_pool) × (b'.events ≡ b.events)
unfolding remove_orders_at_price
remove_orders_at_price-same side price b b' e =
    let (l, found, e) = >>=-eq-ok (deref (get_orders_at_price price b)) _ e in
    let (b1, unlinked, e) =
      >>=-eq-ok
        (if points_to (level b l).next_entry l
          then ok (set_best side none b)
          else unlink_level side l b)
        _ e in
    ground (arith, unlink_level-same side l b b1)

remove_orders_at_price-fuel :
    (side : Side) (price : ℤ) (b : Book) → remove_orders_at_price side price b ≢ failed out_of_fuel
unfolding remove_orders_at_price
remove_orders_at_price-fuel side price b =
    >>=-≢ out_of_fuel (deref (get_orders_at_price price b)) _
      (deref-fuel (get_orders_at_price price b))
      (λ l _.
        >>=-≢ out_of_fuel
          (if points_to (level b l).next_entry l
            then ok (set_best side none b)
            else unlink_level side l b)
          _ (λ e. ground (arith, unlink_level-fuel side l b))
          (λ b1 _ e. ground (arith, deallocate-fuel b1.orders_at_price_pool l)))

set_client_order-same :
    (c i : ℕ) (p : Option ℕ) (b b' : Book)
    → set_client_order c i p b ≡ ok b'
    → (b'.order_pool ≡ b.order_pool) × (b'.events ≡ b.events)
unfolding set_client_order
set_client_order-same c i p b b' e = ground arith

set_client_order-fuel :
    (c i : ℕ) (p : Option ℕ) (b : Book) → set_client_order c i p b ≢ failed out_of_fuel
unfolding set_client_order
set_client_order-fuel c i p b e = ground arith

-- The first step of `removeOrder`.
abbrev pub unlinked : ℕ → Book → Outcome Book
unlinked o b =
    if points_to (order b o).prev_order o
    then remove_orders_at_price (order b o).side (order b o).price b
    else deref (get_orders_at_price (order b o).price b) >>= λ l. unlink_order o l b

same-Kept : (b b' : Book) → (b'.order_pool ≡ b.order_pool) × (b'.events ≡ b.events) → Kept b b'
same-Kept b b' h = record {
  size = ap (λ p. p.size) h.0;
  free = λ i. ap (λ p. free_at p i) h.0;
  events = h.1;
}

unlinked-Kept : (o : ℕ) (b b' : Book) → unlinked o b ≡ ok b' → Kept b b'
unlinked-Kept o b b' e = by_case (points_to (order b o).prev_order o) e
  where
    by_case :
        (t : Bool)
        → (if t
            then remove_orders_at_price (order b o).side (order b o).price b
            else deref (get_orders_at_price (order b o).price b) >>= λ l. unlink_order o l b)
          ≡ ok b'
        → Kept b b'
    by_case true e = same-Kept b b' (remove_orders_at_price-same _ _ b b' e)
    by_case _ e =
        let (l, found, e) = >>=-eq-ok (deref (get_orders_at_price (order b o).price b)) _ e in
        unlink_order-Kept o l b b' e

deallocate-Freed :
    (o : ℕ) (b b' : Book)
    → (deallocate b.order_pool o >>= λ pool. ok (record b { order_pool = pool })) ≡ ok b'
    → Freed o b b'
unfolding deallocate
deallocate-Freed o b b' e = record {
  bound = ground arith;
  used = ground arith;
  size = ground arith;
  free = λ i. ground arith;
  events = ground arith;
}

pub remove_order-Freed : (o : ℕ) (b b' : Book) → remove_order o b ≡ ok b' → Freed o b b'
unfolding remove_order
remove_order-Freed o b b' e =
    let (b1, e1, e) = >>=-eq-ok (unlinked o b) _ e in
    let (b2, e2, e) =
      >>=-eq-ok (set_client_order (order b1 o).client_id (order b1 o).client_order_id none b1) _
        e in
    let k1 = unlinked-Kept o b b1 e1 in
    let k2 = same-Kept b1 b2 (set_client_order-same _ _ _ b1 b2 e2) in
    let f = deallocate-Freed o b2 b' e in
    record {
      bound = omega (arith, k1.size, k2.size, f.bound);
      used = sym (k1.free o) ∙ sym (k2.free o) ∙ f.used;
      size = f.size ∙ k2.size ∙ k1.size;
      free = λ i. ground (arith, f.free i, k1.free i, k2.free i);
      events = f.events ∙ k2.events ∙ k1.events;
    }

unlinked-fuel : (o : ℕ) (b : Book) → unlinked o b ≢ failed out_of_fuel
unlinked-fuel o b = by_case (points_to (order b o).prev_order o)
  where
    by_case :
        (t : Bool)
        → (if t
            then remove_orders_at_price (order b o).side (order b o).price b
            else deref (get_orders_at_price (order b o).price b) >>= λ l. unlink_order o l b)
          ≢ failed out_of_fuel
    by_case true = remove_orders_at_price-fuel _ _ b
    by_case _ =
        >>=-≢ out_of_fuel (deref (get_orders_at_price (order b o).price b)) _
          (deref-fuel (get_orders_at_price (order b o).price b)) (λ l _. unlink_order-fuel o l b)

pub remove_order-fuel : (o : ℕ) (b : Book) → remove_order o b ≢ failed out_of_fuel
unfolding remove_order
remove_order-fuel o b = >>=-≢ out_of_fuel (unlinked o b) _ (unlinked-fuel o b) (λ b1 _.
    >>=-≢ out_of_fuel (set_client_order (order b1 o).client_id (order b1 o).client_order_id none b1)
      _ (set_client_order-fuel _ _ _ b1)
      (λ b2 _.
        >>=-≢ out_of_fuel (deallocate b2.order_pool o) _ (deallocate-fuel b2.order_pool o)
          (λ pool _ e. cc)))
