-- ===== src/Trading/OrderManager.antt =====
-- trading/strategy/om_order.h, order_manager.h and order_manager.cpp: at most one order for each
-- instrument and side, moved by new orders and cancels. Requests to the trade engine are collected in
-- `requests`. The risk check is that of `RiskManager`.
pub mod Moves
pub mod Lifecycle
use trading_ecosystem.Prelude.{
  ℕ, zero, suc, ◌+◌, ◌-◌, ◌*◌, ◌/◌, ◌%◌, ◌^◌, ◌≤◌, ◌<◌, min, ◌≡◌, refl, sym, ap, ◌∙◌, ◌≢◌, ◌↔◌, ◌⊎◌,
  inl, inr, Bool, true, false, not, ◌&&◌, ◌||◌, Option, none, some, List, [], ◌∷◌, ◌++◌, map, arith,
  ltb, leb, ◌==◌, if◌then◌else◌, ==_iff, ==_refl, Bool-cases, Option-cases, length, length-append,
  length-Perm, nil_of_length, update, All, All-append, Fault, assertion, null_pointer, out_of_range,
  out_of_fuel, Outcome, ok, failed, ◌>>=◌, ◌>>◌, assert, in_range, deref, >>=-eq-ok,
}
use trading_ecosystem.Prelude.Int.{ℤ, eqb_ℤ}
use trading_ecosystem.Common.Types
use trading_ecosystem.Common.Types.{
  Side, side_to_index, me_max_tickers, order_id_invalid, qty_invalid, price_invalid,
}
use trading_ecosystem.Exchange.Messages
use trading_ecosystem.Exchange.Messages.{
  MeClientRequest, MeClientResponse, ClientRequestType, ClientResponseType,
}
use trading_ecosystem.Trading.RiskManager.{RiskInfo, RiskCheckResult, check_pre_trade_risk}

pub data OmOrderState : Type 0 where
  invalid pending_new live pending_cancel dead : OmOrderState

pub record OmOrder : Type 0 where
  pub ticker_id : ℕ
  pub order_id : ℕ
  pub side : Side
  pub price : ℤ
  pub qty : ℕ
  pub order_state : OmOrderState

pub record OrderManager : Type 0 where
  pub ticker_side_order : ℕ → ℕ → OmOrder
  pub next_order_id : ℕ
  pub requests : List MeClientRequest

-- `OMOrder()`
abbrev pub default_order : OmOrder
default_order = record {
  ticker_id = qty_invalid;
  order_id = order_id_invalid;
  side = Types.Side.invalid;
  price = price_invalid;
  qty = qty_invalid;
  order_state = invalid;
}

abbrev pub order_manager : OrderManager
order_manager = record {
  ticker_side_order = λ _ _. default_order;
  next_order_id = 1;
  requests = [];
}

-- An assignment to the order of an instrument and a side.
abbrev pub set_order : ℕ → Side → OmOrder → OrderManager → OrderManager
set_order ticker_id side o m = record m {
  ticker_side_order =
      update m.ticker_side_order ticker_id
        (update (m.ticker_side_order ticker_id) (side_to_index side) o);
}

abbrev pub order_of : ℕ → Side → OrderManager → OmOrder
order_of ticker_id side m = m.ticker_side_order ticker_id (side_to_index side)

-- The effect of a response on the order of its instrument and side.
unfoldable pub update_order : MeClientResponse → OmOrder → OmOrder
update_order r o = elim r.kind [
  | ClientResponseType.accepted ↦ record o { order_state = live }
  | ClientResponseType.canceled ↦ record o { order_state = dead }
  | ClientResponseType.filled ↦ record o {
    qty = r.leaves_qty;
    order_state = if r.leaves_qty == 0 then dead else o.order_state;
  }
  | _ ↦ o
]

-- `onOrderUpdate`. Every side has an index below 4, the length of the inner array.
unfoldable pub on_order_update : MeClientResponse → OrderManager → Outcome OrderManager
unfolding update_order
on_order_update r m = do
  in_range (ltb r.ticker_id me_max_tickers)
  ok (set_order r.ticker_id r.side (update_order r (order_of r.ticker_id r.side m)) m)

module _ (client_id : ℕ) where
  -- `newOrder`; the order that it updates is that of the instrument and the side.
  unfoldable pub new_order : ℕ → ℤ → Side → ℕ → OrderManager → OrderManager
  new_order ticker_id price side qty m =
      let request : MeClientRequest = record {
        kind = ClientRequestType.new;
        client_id = client_id;
        ticker_id = ticker_id;
        order_id = m.next_order_id;
        side = side;
        price = price;
        qty = qty;
      } in
      let o : OmOrder = record {
        ticker_id = ticker_id;
        order_id = m.next_order_id;
        side = side;
        price = price;
        qty = qty;
        order_state = pending_new;
      } in
      set_order ticker_id side o (record m {
        next_order_id = (m.next_order_id + 1) % 2 ^ 64;
        requests = m.requests ++ request ∷ [];
      })

  -- `cancelOrder`
  unfoldable pub cancel_order : ℕ → Side → OrderManager → OrderManager
  cancel_order ticker_id side m =
      let o = order_of ticker_id side m in
      let request : MeClientRequest = record {
        kind = ClientRequestType.cancel;
        client_id = client_id;
        ticker_id = o.ticker_id;
        order_id = o.order_id;
        side = o.side;
        price = o.price;
        qty = o.qty;
      } in
      set_order ticker_id side (record o { order_state = pending_cancel })
        (record m { requests = m.requests ++ request ∷ [] })

  module _ {Double : Type 0} (less : Double → Double → Bool) (risk : ℕ → RiskInfo Double) where
    -- The case of `moveOrder` for an order that is not in the market
    unfoldable pub try_new_order : ℕ → ℤ → Side → ℕ → OrderManager → Outcome OrderManager
    try_new_order ticker_id price side qty m = elim (eqb_ℤ price price_invalid) [
      | true ↦ ok m
      | false ↦ do
        result ← check_pre_trade_risk less risk ticker_id side qty
        ok (elim result [ RiskCheckResult.allowed ↦ new_order ticker_id price side qty m | _ ↦ m ])
    ]

    -- `moveOrder`
    unfoldable pub move_order : ℕ → ℤ → Side → ℕ → OrderManager → Outcome OrderManager
    unfolding try_new_order
    move_order ticker_id price side qty m = elim (order_of ticker_id side m).order_state [
      | live ↦ ok (
          if not (eqb_ℤ (order_of ticker_id side m).price price)
          then cancel_order ticker_id side m
          else m)
      | invalid ↦ try_new_order ticker_id price side qty m
      | dead ↦ try_new_order ticker_id price side qty m
      | pending_new ↦ ok m
      | pending_cancel ↦ ok m
    ]

    -- `moveOrders`
    unfoldable pub move_orders : ℕ → ℤ → ℤ → ℕ → OrderManager → Outcome OrderManager
    move_orders ticker_id bid_price ask_price clip m = do
      in_range (ltb ticker_id me_max_tickers)
      m ← move_order ticker_id bid_price Types.Side.buy clip m
      move_order ticker_id ask_price Types.Side.sell clip m
