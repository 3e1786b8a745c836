-- ===== src/Trading/OrderManager/Lifecycle.antt =====
-- Order identifiers and labels over any run of the order manager.
use trading_ecosystem.Prelude.{
  ℕ, ◌+◌, ◌%◌, ◌^◌, ◌≤◌, ◌<◌, ◌≡◌, refl, ◌≢◌, inl, inr, Bool, List, [], ◌∷◌, ◌++◌, arith, Outcome,
  ok,
}
use trading_ecosystem.Prelude.Int.{ℤ}
use trading_ecosystem.Common.Types.{Side, buy, sell, me_max_tickers}
use trading_ecosystem.Exchange.Messages.{MeClientRequest, MeClientResponse, ClientRequestType}
use trading_ecosystem.Trading.RiskManager.{RiskInfo}
use trading_ecosystem.Trading.OrderManager.{
  OmOrder, invalid, live, OrderManager, order_manager, order_of, set_order, update_order,
  on_order_update, new_order, cancel_order, move_order, move_orders,
}
use trading_ecosystem.Trading.OrderManager.Moves.{Moved, move_order-Moved}

-- The identifiers of the new orders among the requests.
abbrev pub new_ids : List MeClientRequest → List ℕ
new_ids [] = []
new_ids (r ∷ rs) = elim r.kind [ ClientRequestType.new ↦ r.order_id ∷ new_ids rs | _ ↦ new_ids rs ]

-- Strictly increasing numbers from `lo` on, below `hi`.
abbrev pub IsAscending : ℕ → List ℕ → ℕ → Type 0
IsAscending lo [] hi = lo ≤ hi
IsAscending lo (x ∷ xs) hi = (lo ≤ x) × IsAscending (x + 1) xs hi

IsAscending-append :
    (lo : ℕ) (xs : List ℕ) (hi : ℕ) → IsAscending lo xs hi → IsAscending lo (xs ++ hi ∷ []) (hi + 1)
IsAscending-append lo [] hi h = (h, omega arith)
IsAscending-append lo (x ∷ xs) hi h = (h.0, IsAscending-append (x + 1) xs hi h.1)

new_ids-append_new :
    (rs : List MeClientRequest) (r : MeClientRequest)
    → r.kind ≡ ClientRequestType.new
    → new_ids (rs ++ r ∷ []) ≡ new_ids rs ++ r.order_id ∷ []
new_ids-append_new [] r e = ground arith
new_ids-append_new (q ∷ rs) r e = ground (arith, new_ids-append_new rs r e)

new_ids-append_cancel :
    (rs : List MeClientRequest) (r : MeClientRequest)
    → r.kind ≡ ClientRequestType.cancel
    → new_ids (rs ++ r ∷ []) ≡ new_ids rs
new_ids-append_cancel [] r e = ground arith
new_ids-append_cancel (q ∷ rs) r e = ground (arith, new_ids-append_cancel rs r e)

-- An order that has been sent carries its instrument, its side and an identifier that has been given out.
abbrev pub IsLabelled : ℕ → ℕ → Side → OmOrder → Type 0
IsLabelled next t side o =
    o.order_state ≢ invalid → (o.ticker_id ≡ t) × (o.side ≡ side) × (o.order_id < next)

pub record IsValid (m : OrderManager) : Type 0 where
  pub bids : (t : ℕ) → IsLabelled m.next_order_id t buy (order_of t buy m)
  pub asks : (t : ℕ) → IsLabelled m.next_order_id t sell (order_of t sell m)
  pub ids : IsAscending 1 (new_ids m.requests) m.next_order_id

pub order_manager-IsValid : IsValid order_manager
order_manager-IsValid = record {
  bids = λ t h. absurd (h refl);
  asks = λ t h. absurd (h refl);
  ids = omega arith;
}

new_ids-IsAscending :
    (m : OrderManager) (r : MeClientRequest)
    → IsAscending 1 (new_ids m.requests) m.next_order_id
    → m.next_order_id + 1 < 2 ^ 64
    → r.kind ≡ ClientRequestType.new
    → r.order_id ≡ m.next_order_id
    → IsAscending 1 (new_ids (m.requests ++ r ∷ [])) ((m.next_order_id + 1) % 2 ^ 64)
new_ids-IsAscending m r v small k e =
    let no_wrap : (m.next_order_id + 1) % 2 ^ 64 ≡ m.next_order_id + 1 = omega arith in
    rw (new_ids-append_new m.requests r k, no_wrap, e)
      (IsAscending-append 1 (new_ids m.requests) m.next_order_id v)

cancel-IsAscending :
    (m : OrderManager) (r : MeClientRequest)
    → IsAscending 1 (new_ids m.requests) m.next_order_id
    → r.kind ≡ ClientRequestType.cancel
    → IsAscending 1 (new_ids (m.requests ++ r ∷ [])) m.next_order_id
cancel-IsAscending m r v k = rw (new_ids-append_cancel m.requests r k) v

module _ (client_id : ℕ) where
  new_order-IsValid :
      (t : ℕ) (price : ℤ) (side : Side) (qty : ℕ) (m : OrderManager)
      → m.next_order_id + 1 < 2 ^ 64
      → IsValid m
      → IsValid (new_order client_id t price side qty m)
  unfolding new_order
  new_order-IsValid t price buy qty m small v = record {
    bids = λ t' h. ground (arith, v.bids t');
    asks = λ t' h. ground (arith, v.asks t');
    ids = new_ids-IsAscending m _ v.ids small refl refl;
  }
  new_order-IsValid t price _ qty m small v = record {
    bids = λ t' h. ground (arith, v.bids t');
    asks = λ t' h. ground (arith, v.asks t');
    ids = new_ids-IsAscending m _ v.ids small refl refl;
  }

  cancel_order-IsValid :
      (t : ℕ) (side : Side) (m : OrderManager)
      → (order_of t side m).order_state ≡ live
      → IsValid m
      → IsValid (cancel_order client_id t side m)
  unfolding cancel_order
  cancel_order-IsValid t buy m resting v = record {
    bids = λ t' h. ground (arith, v.bids t');
    asks = λ t' h. ground (arith, v.asks t');
    ids = cancel-IsAscending m _ v.ids refl;
  }
  cancel_order-IsValid t _ m resting v = record {
    bids = λ t' h. ground (arith, v.bids t');
    asks = λ t' h. ground (arith, v.asks t');
    ids = cancel-IsAscending m _ v.ids refl;
  }

-- The response is for an order that has been sent.
abbrev pub IsAnswer : MeClientResponse → OrderManager → Type 0
IsAnswer r m = (order_of r.ticker_id r.side m).order_state ≢ invalid

update_order-label :
    (r : MeClientResponse) (o : OmOrder)
    → ((update_order r o).ticker_id ≡ o.ticker_id)
      × ((update_order r o).side ≡ o.side)
      × ((update_order r o).order_id ≡ o.order_id)
unfolding update_order
update_order-label r o = ground arith

on_order_update-eq :
    (r : MeClientResponse) (m m' : OrderManager)
    → on_order_update r m ≡ ok m'
    → m' ≡ set_order r.ticker_id r.side (update_order r (order_of r.ticker_id r.side m)) m
unfolding on_order_update
on_order_update-eq r m m' e = ground arith

on_order_update-IsValid :
    (r : MeClientResponse) (side : Side) (m : OrderManager)
    → r.side ≡ side
    → IsAnswer r m
    → IsValid m
    → IsValid (set_order r.ticker_id r.side (update_order r (order_of r.ticker_id r.side m)) m)
on_order_update-IsValid r buy m e answer v = record {
  bids = λ t h. ground (arith, v.bids t, update_order-label r (order_of t buy m));
  asks = λ t h. ground (arith, v.asks t);
  ids = v.ids;
}
on_order_update-IsValid r _ m e answer v = record {
  bids = λ t h. ground (arith, v.bids t);
  asks = λ t h. ground (arith, v.asks t, update_order-label r (order_of t sell m));
  ids = v.ids;
}

module _ (client_id : ℕ) {Double : Type 0} (less : Double → Double → Bool) where
  next_order_id-new_order :
      (t : ℕ) (price : ℤ) (side : Side) (qty : ℕ) (m : OrderManager)
      → (new_order client_id t price side qty m).next_order_id ≤ m.next_order_id + 1
  unfolding new_order
  next_order_id-new_order t price side qty m = omega arith

  next_order_id-cancel_order :
      (t : ℕ) (side : Side) (m : OrderManager)
      → (cancel_order client_id t side m).next_order_id ≡ m.next_order_id
  unfolding cancel_order
  next_order_id-cancel_order t side m = refl

  Moved-IsValid :
      (risk : ℕ → RiskInfo Double) (t : ℕ) (price : ℤ) (side : Side) (qty : ℕ) (m m' : OrderManager)
      → m.next_order_id + 1 < 2 ^ 64
      → IsValid m
      → Moved client_id less risk t price side qty m m'
      → IsValid m' × (m'.next_order_id ≤ m.next_order_id + 1)
  Moved-IsValid risk t price side qty m m' small v (inl (sent, e)) = rw e (
    new_order-IsValid client_id t price side qty m small v,
    next_order_id-new_order t price side qty m,
  )
  Moved-IsValid risk t price side qty m m' small v (inr (inl (cancelled, e))) = rw e (
    cancel_order-IsValid client_id t side m cancelled.resting v,
    omega (arith, next_order_id-cancel_order t side m),
  )
  Moved-IsValid risk t price side qty m m' small v (inr (inr e)) = rw e (v, omega arith)

  -- The calls of a trading algorithm and of the trade engine. Each call finds its own table of risks, as fills change the positions between the calls.
  pub data Step (m : OrderManager) (m' : OrderManager) : Type 0 where
    moves :
        (risk : ℕ → RiskInfo Double) (t : ℕ) (bid ask : ℤ) (clip : ℕ)
        → t < me_max_tickers
        → m.next_order_id + 2 < 2 ^ 64
        → move_orders client_id less risk t bid ask clip m ≡ ok m'
        → Step m m'
    answers : (r : MeClientResponse) → IsAnswer r m → on_order_update r m ≡ ok m' → Step m m'

  pub data Reach (m : OrderManager) : OrderManager → Type 0 where
    here : Reach m m
    next : {m' m'' : OrderManager} → Reach m m' → Step m' m'' → Reach m m''

  move_orders-ok :
      (risk : ℕ → RiskInfo Double) (t : ℕ) (bid ask : ℤ) (clip : ℕ) (m m1 m2 : OrderManager)
      → t < me_max_tickers
      → move_order client_id less risk t bid buy clip m ≡ ok m1
      → move_order client_id less risk t ask sell clip m1 ≡ ok m2
      → move_orders client_id less risk t bid ask clip m ≡ ok m2
  unfolding move_orders
  move_orders-ok risk t bid ask clip m m1 m2 h e e' = ground arith

  -- For an instrument in range `moveOrders` succeeds, and keeps the state valid.
  pub move_orders-IsValid :
      (risk : ℕ → RiskInfo Double) (t : ℕ) (bid ask : ℤ) (clip : ℕ) (m : OrderManager)
      → t < me_max_tickers
      → m.next_order_id + 2 < 2 ^ 64
      → IsValid m
      → (m' : OrderManager) × (move_orders client_id less risk t bid ask clip m ≡ ok m')
        × IsValid m'
  move_orders-IsValid risk t bid ask clip m h small v =
      let (m1, e, moved) = move_order-Moved client_id less risk t bid buy clip m h in
      let (v1, n1) = Moved-IsValid risk t bid buy clip m m1 (omega arith) v moved in
      let (m2, e', moved') = move_order-Moved client_id less risk t ask sell clip m1 h in
      let (v2, n2) = Moved-IsValid risk t ask sell clip m1 m2 (omega arith) v1 moved' in
      (m2, move_orders-ok risk t bid ask clip m m1 m2 h e e', v2)

  Step-IsValid : (m m' : OrderManager) → Step m m' → IsValid m → IsValid m'
  unfolding on_order_update
  Step-IsValid m m' (moves risk t bid ask clip h small e) v =
      let (m'', e', v') = move_orders-IsValid risk t bid ask clip m h small v in rw (same e e') v'
    where
      same : {a b : OrderManager} {r : Outcome OrderManager} → r ≡ ok a → r ≡ ok b → a ≡ b
      same p q = cc
  Step-IsValid m m' (answers r answer e) v =
      rw (on_order_update-eq r m m' e) (on_order_update-IsValid r r.side m refl answer v)

  -- Over any sequence of moves and of responses to sent orders, from the start on, with any positions and profits at each move, while the identifiers are below 2^64: the identifiers of the new orders that are sent strictly increase, and each order that has been sent carries its own instrument and side and an identifier that was given out.
  pub Reach-IsValid : {m : OrderManager} → Reach order_manager m → IsValid m
  Reach-IsValid here = order_manager-IsValid
  Reach-IsValid (next r step) = Step-IsValid _ _ step (Reach-IsValid r)
