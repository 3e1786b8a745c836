-- ===== src/Exchange/OrderBook/Conservation.antt =====
-- `checkForMatch` of exchange/matcher/me_order_book.cpp on any book: quantities and prices of trades.
use mathlib.Core.List.{append-nil}
use trading_ecosystem.Common.MemPool.{free_at}
use trading_ecosystem.Prelude.{
  ℕ, ◌+◌, ◌%◌, ◌^◌, min, ◌≡◌, refl, sym, ap, ◌≢◌, inr, Bool, true, false, not, ◌&&◌, List, [], ◌∷◌,
  ◌++◌, arith, if◌then◌else◌, Fault, out_of_fuel, Outcome, ok, failed,
}
use trading_ecosystem.Prelude.{count_below-le}
use trading_ecosystem.Prelude.Int.{ℤ, ltb_ℤ}
use trading_ecosystem.Common.Types
use trading_ecosystem.Common.Types.{Side, is_buy, is_sell}
use trading_ecosystem.Exchange.Messages.{Event, response, update as market_update, trade}
use trading_ecosystem.Exchange.OrderBook.State.{Book, MeOrder}
use trading_ecosystem.Exchange.OrderBook.Matching.{
  Taker, match_loop, check_for_match, is_out_of_reach,
}
use trading_ecosystem.Exchange.OrderBook.Trades.{trade_events}
use trading_ecosystem.Exchange.OrderBook.Loop.{
  Trades, done, fill, Stopped, filled, empty, out_of_reach, no_side, Traded, match_loop-Traded,
  match_loop-fuel,
}

-- The quantity of the trades among the messages.
unfoldable pub traded : List Event → ℕ
traded [] = 0
traded (response r ∷ es) = traded es
traded (market_update u ∷ es) = elim u.kind [ trade ↦ u.qty + traded es | _ ↦ traded es ]

-- A price at which an order may trade: a buy not above its limit, a sell not below.
abbrev pub is_acceptable : Side → ℤ → ℤ → Bool
is_acceptable side limit price =
    if is_buy side then not (ltb_ℤ limit price) else not (ltb_ℤ price limit)

-- Every trade among the messages is at an acceptable price.
unfoldable pub is_within_limit : Side → ℤ → List Event → Bool
is_within_limit side limit [] = true
is_within_limit side limit (response r ∷ es) = is_within_limit side limit es
is_within_limit side limit (market_update u ∷ es) = elim u.kind [
  | trade ↦ is_acceptable side limit u.price && is_within_limit side limit es
  | _ ↦ is_within_limit side limit es
]

traded-trade_events :
    (t : Taker) (o : MeOrder) (leaves : ℕ) (es : List Event)
    → traded (trade_events t o leaves ++ es) ≡ min leaves o.qty + traded es
unfolding traded
traded-trade_events t o leaves es = ground arith

traded-Trades :
    {t : Taker} {leaves leaves' : ℕ} {es : List Event}
    → Trades t leaves es leaves'
    → traded es + leaves' ≡ leaves
unfolding traded
traded-Trades done = omega arith
traded-Trades {t = t} (fill o {leaves = leaves} {es = es} some_left reached rest) =
    omega (arith, traded-trade_events t o leaves es, traded-Trades rest)

is_within_limit-trade_events :
    (t : Taker) (o : MeOrder) (leaves : ℕ) (es : List Event)
    → is_out_of_reach t o ≡ false
    → is_within_limit t.side t.price es ≡ true
    → is_within_limit t.side t.price (trade_events t o leaves ++ es) ≡ true
unfolding is_within_limit
is_within_limit-trade_events t o leaves es reached h = ground arith

is_within_limit-Trades :
    (t : Taker) {leaves leaves' : ℕ} {es : List Event}
    → Trades t leaves es leaves'
    → is_within_limit t.side t.price es ≡ true
unfolding is_within_limit
is_within_limit-Trades t done = refl
is_within_limit-Trades t (fill o {leaves = leaves} {es = es} some_left reached rest) =
    is_within_limit-trade_events t o leaves es reached (is_within_limit-Trades t rest)

-- What `checkForMatch` leaves behind: the trades that it reports and the rest make up the quantity, no trade is worse than the limit, and no further match is possible.
pub record Conserves (t : Taker) (qty : ℕ) (b : Book) (r : ℕ × Book) : Type 0 where
  pub messages : List Event
  pub events : r.1.events ≡ b.events ++ messages
  pub quantity : traded messages + r.0 ≡ qty
  pub prices : is_within_limit t.side t.price messages ≡ true
  pub stopped : Stopped t r.0 r.1

Traded-Conserves :
    (t : Taker) (qty : ℕ) (b : Book) (r : ℕ × Book) → Traded t qty b r → Conserves t qty b r
Traded-Conserves t qty b r h = record {
  messages = h.messages;
  events = h.events;
  quantity = traded-Trades h.trades;
  prices = is_within_limit-Trades t h.trades;
  stopped = h.stopped;
}

-- A fault other than the end of the fuel, or a result with a property.
pub data Returns {A : Type 0} (P : A → Type 0) (m : Outcome A) : Type 0 where
  result : (a : A) → m ≡ ok a → P a → Returns P m
  fault : (f : Fault) → f ≢ out_of_fuel → m ≡ failed f → Returns P m

returns :
    {A : Type 0} (P : A → Type 0) (m : Outcome A)
    → m ≢ failed out_of_fuel
    → ((a : A) → m ≡ ok a → P a)
    → Returns P m
returns P (ok a) h k = result a refl (k a refl)
returns P (failed f) h k = fault f (λ e. h (ap (λ x. failed x) e)) refl

-- The order with the identifier cut to 32 bits, as `checkForMatch` hands it on.
abbrev cut : Taker → Taker
cut t = record t { market_order_id = t.market_order_id % 2 ^ 32 }

Stopped-cut : (t : Taker) (leaves : ℕ) (b : Book) → Stopped (cut t) leaves b → Stopped t leaves b
Stopped-cut t leaves b (filled e) = filled e
Stopped-cut t leaves b (empty e) = empty e
Stopped-cut t leaves b (out_of_reach l o e e' e'') = out_of_reach l o e e' e''
Stopped-cut t leaves b (no_side e e') = no_side e e'

loop-Conserves :
    (t : Taker) (qty : ℕ) (b : Book)
    → Returns (Conserves t qty b) (match_loop (b.order_pool.size + 2) (cut t) qty b)
loop-Conserves t qty b =
    returns (Conserves t qty b) _
      (match_loop-fuel _ (cut t) qty b
        (inr (omega (arith, count_below-le (λ i. not (free_at b.order_pool i)) b.order_pool.size)))
        (omega arith))
      (λ r e.
        (let h = Traded-Conserves (cut t) qty b r (match_loop-Traded _ (cut t) qty b r e) in
          record {
            messages = h.messages;
            events = h.events;
            quantity = h.quantity;
            prices = h.prices;
            stopped = Stopped-cut t r.0 r.1 h.stopped;
          }))

unmatched :
    (t : Taker) (qty : ℕ) (b : Book)
    → is_buy t.side ≡ false
    → is_sell t.side ≡ false
    → Returns (Conserves t qty b) (ok (qty, b))
unmatched t qty b e e' = result _ refl (
    Traded-Conserves t qty b (qty, b)
      (record {
        messages = [];
        trades = done;
        events = sym (append-nil b.events);
        stopped = no_side e e';
      }))

-- On any book whatsoever `checkForMatch` ends. If no pointer is null, no index out of range and no assertion fails, then the trades that it reports and the quantity that it returns make up the quantity of the incoming order, no trade has a price that is worse than the limit of the incoming order, and in the resulting book no further match is possible: nothing is left, the other side is empty, the best price of the other side is beyond the limit, or the order is neither a buy nor a sell.
pub check_for_match-Conserves :
    (t : Taker) (qty : ℕ) (b : Book) → Returns (Conserves t qty b) (check_for_match t qty b)
unfolding check_for_match
check_for_match-Conserves t qty b =
    (elim t.side
        as (λ x.
          t.side ≡ x
          → Returns (Conserves t qty b) (elim x [
            | Types.Side.buy ↦ match_loop (b.order_pool.size + 2) (cut t) qty b
            | Types.Side.sell ↦ match_loop (b.order_pool.size + 2) (cut t) qty b
            | Types.Side.invalid ↦ ok (qty, b)
            | Types.Side.max ↦ ok (qty, b)
          ])) [
            | Types.Side.buy ↦ λ e. loop-Conserves t qty b
            | Types.Side.sell ↦ λ e. loop-Conserves t qty b
            | Types.Side.invalid ↦ λ e. unmatched t qty b (ap is_buy e) (ap is_sell e)
            | Types.Side.max ↦ λ e. unmatched t qty b (ap is_buy e) (ap is_sell e)
          ])
      refl
