-- ===== src/Exchange/OrderBook/Loop.antt =====
-- The loops of `checkForMatch` of exchange/matcher/me_order_book.cpp: their trades, as a data type,
-- and why they stop.
use mathlib.Core.List.{append_assoc, append-nil}
use mathlib.Core.Path.{subst}
use trading_ecosystem.Prelude.{
  ℕ, zero, suc, ◌+◌, ◌-◌, ◌<◌, min, ◌≡◌, refl, sym, ap, ◌∙◌, ◌≢◌, ◌⊎◌, inl, inr, true, false, none,
  some, List, [], ◌++◌, arith, ◌==◌, Bool-cases, Option-cases, null_pointer, out_of_fuel, ok,
  failed, ◌>>=◌, >>=-eq-ok, >>=-≢,
}
use trading_ecosystem.Common.Types.{opposite, is_buy, is_sell}
use trading_ecosystem.Exchange.Messages.{Event}
use trading_ecosystem.Exchange.OrderBook.State.{Book, MeOrder, level, order, best}
use trading_ecosystem.Exchange.OrderBook.Matching.{Taker, match_order, match_loop, is_out_of_reach}
use trading_ecosystem.Exchange.OrderBook.Trades.{
  order_count, trade_events, match_order-Matched, match_order-fuel,
}

-- What a run of `match` calls does to a quantity, and the messages it sends: each round trades with a resting order whose price the incoming order reaches.
pub data Trades (t : Taker) : ℕ → List Event → ℕ → Type 0 where
  done : {leaves : ℕ} → Trades t leaves [] leaves
  fill :
      (o : MeOrder) {leaves leaves' : ℕ} {es : List Event}
      → 0 < leaves
      → is_out_of_reach t o ≡ false
      → Trades t (leaves - min leaves o.qty) es leaves'
      → Trades t leaves (trade_events t o leaves ++ es) leaves'

-- Why there is no further match: nothing is left of the order, there is no order on the other side, the best price of the other side is out of reach, or the order is for neither side.
pub data Stopped (t : Taker) (leaves : ℕ) (b : Book) : Type 0 where
  filled : leaves ≡ 0 → Stopped t leaves b
  empty : best (opposite t.side) b ≡ none → Stopped t leaves b
  out_of_reach :
      (l o : ℕ)
      → best (opposite t.side) b ≡ some l
      → (level b l).first_me_order ≡ some o
      → is_out_of_reach t (order b o) ≡ true
      → Stopped t leaves b
  no_side : is_buy t.side ≡ false → is_sell t.side ≡ false → Stopped t leaves b

-- The result of a run: its trades, and why it stopped.
pub record Traded (t : Taker) (leaves : ℕ) (b : Book) (r : ℕ × Book) : Type 0 where
  pub messages : List Event
  pub trades : Trades t leaves messages r.0
  pub events : r.1.events ≡ b.events ++ messages
  pub stopped : Stopped t r.0 r.1

-- The cases of one round of the loop.
data Round (fuel : ℕ) (t : Taker) (leaves : ℕ) (b : Book) : Type 0 where
  stops :
      Stopped t leaves b → match_loop (suc fuel) t leaves b ≡ ok (leaves, b) → Round fuel t leaves b
  faults : match_loop (suc fuel) t leaves b ≡ failed null_pointer → Round fuel t leaves b
  matches :
      (o : ℕ)
      → 0 < leaves
      → is_out_of_reach t (order b o) ≡ false
      → match_loop (suc fuel) t leaves b
        ≡ (match_order t o leaves b >>= λ r. match_loop fuel t r.0 r.1)
      → Round fuel t leaves b

round : (fuel : ℕ) (t : Taker) (leaves : ℕ) (b : Book) → Round fuel t leaves b
unfolding match_loop
round fuel t leaves b = elim (Bool-cases (leaves == 0)) [
  | inl e ↦ stops (filled (ground arith)) (rw (match_loop, e) refl)
  | inr e ↦ elim (Option-cases (best (opposite t.side) b)) [
    | inl e1 ↦ stops (empty e1) (rw (match_loop, e, e1) refl)
    | inr (l, e1) ↦ elim (Option-cases (level b l).first_me_order) [
      | inl e2 ↦ faults (rw (match_loop, e, e1, e2) refl)
      | inr (o, e2) ↦ elim (Bool-cases (is_out_of_reach t (order b o))) [
        | inl e3 ↦ stops (out_of_reach l o e1 e2 e3) (ground arith)
        | inr e3 ↦ matches o (ground arith) e3 (ground arith)
      ]
    ]
  ]
]

pub match_loop-Traded :
    (fuel : ℕ) (t : Taker) (leaves : ℕ) (b : Book) (r : ℕ × Book)
    → match_loop fuel t leaves b ≡ ok r
    → Traded t leaves b r
unfolding match_loop
match_loop-Traded zero t leaves b r e = absurd (ground arith)
match_loop-Traded (suc fuel) t leaves b r e = elim (round fuel t leaves b) [
  | stops why e1 ↦
      let result : r ≡ (leaves, b) = cc in
      rw result
        (record { messages = []; trades = done; events = sym (append-nil b.events); stopped = why })
  | faults e1 ↦ absurd (ground arith)
  | matches o some_left reached e1 ↦
      let (r1, matched, e2) = >>=-eq-ok (match_order t o leaves b) _ (sym e1 ∙ e) in
      let m = match_order-Matched t o leaves b r1 matched in
      let rest = match_loop-Traded fuel t r1.0 r1.1 r e2 in
      record {
        messages = trade_events t (order b o) leaves ++ rest.messages;
        trades =
            fill (order b o) some_left reached
              (subst (λ n. Trades t n rest.messages r.0) m.left rest.trades);
        events =
            rest.events
            ∙ ap (λ l. l ++ rest.messages) m.events
            ∙ append_assoc b.events (trade_events t (order b o) leaves) rest.messages;
        stopped = rest.stopped;
      }
]

pub match_loop-fuel :
    (fuel : ℕ) (t : Taker) (leaves : ℕ) (b : Book)
    → (leaves ≡ 0) ⊎ (order_count b + 1 < fuel)
    → 0 < fuel
    → match_loop fuel t leaves b ≢ failed out_of_fuel
match_loop-fuel zero t leaves b h some_fuel = absurd (omega arith)
match_loop-fuel (suc fuel) t leaves b h some_fuel = elim (round fuel t leaves b) [
  | stops why e1 ↦ λ e. ground arith
  | faults e1 ↦ λ e. ground arith
  | matches o some_left reached e1 ↦ rw e1 (
      >>=-≢ out_of_fuel (match_order t o leaves b) _ (match_order-fuel t o leaves b) (λ r matched.
        let m = match_order-Matched t o leaves b r matched in
        match_loop-fuel fuel t r.0 r.1
          (elim m.shrinks [
            | inl z ↦ inl z
            | inr c ↦ inr (elim h [ inl z ↦ absurd (omega arith) | inr c' ↦ omega arith ])
          ])
          (elim h [ inl z ↦ absurd (omega arith) | inr c' ↦ omega arith ])))
]
