-- ===== src/Trading/OrderManager/Moves.antt =====
-- When the order manager sends a request, and which.
use trading_ecosystem.Prelude.{
  ℕ, ◌<◌, ◌≡◌, refl, ◌⊎◌, inl, inr, Bool, true, false, arith, Bool-cases, Outcome, ok,
}
use trading_ecosystem.Prelude.Int.{ℤ, eqb_ℤ}
use trading_ecosystem.Common.Types.{Side, me_max_tickers, price_invalid}
use trading_ecosystem.Trading.RiskManager.{
  RiskInfo, RiskCheckResult, check_info, check_pre_trade_risk,
}
use trading_ecosystem.Trading.OrderManager.{
  OmOrderState, invalid, pending_new, live, pending_cancel, dead, OrderManager, order_of, new_order,
  cancel_order, try_new_order, move_order,
}

-- The order is not in the market, nor on its way there.
abbrev pub IsIdle : OmOrderState → Type 0
IsIdle s = (s ≡ invalid) ⊎ (s ≡ dead)

module _ (client_id : ℕ) {Double : Type 0} (less : Double → Double → Bool)
    (risk : ℕ → RiskInfo Double) where
  -- A new order may be sent.
  pub record MaySend (ticker_id : ℕ) (price : ℤ) (side : Side) (qty : ℕ) (m : OrderManager)
      : Type 0 where
    pub idle : IsIdle (order_of ticker_id side m).order_state
    pub wanted : eqb_ℤ price price_invalid ≡ false
    pub checked : check_info less side qty (risk ticker_id) ≡ RiskCheckResult.allowed

  -- The order is to be cancelled.
  pub record MustCancel (ticker_id : ℕ) (price : ℤ) (side : Side) (m : OrderManager) : Type 0 where
    pub resting : (order_of ticker_id side m).order_state ≡ live
    pub elsewhere : eqb_ℤ (order_of ticker_id side m).price price ≡ false

  -- The three things that `moveOrder` can do.
  abbrev pub Moved : ℕ → ℤ → Side → ℕ → OrderManager → OrderManager → Type 0
  Moved ticker_id price side qty m m' =
      (MaySend ticker_id price side qty m × (m' ≡ new_order client_id ticker_id price side qty m))
      ⊎ ((MustCancel ticker_id price side m × (m' ≡ cancel_order client_id ticker_id side m))
          ⊎ (m' ≡ m))

  module _ (ticker_id : ℕ) (price : ℤ) (side : Side) (qty : ℕ) (m : OrderManager)
      (h : ticker_id < me_max_tickers) where
    -- What a call returns: a state that is one of the three.
    abbrev Moves : Outcome OrderManager → Type 0
    Moves result = (m' : OrderManager) × (result ≡ ok m') × Moved ticker_id price side qty m m'

    try_new_order_checked :
        (r : RiskCheckResult)
        → IsIdle (order_of ticker_id side m).order_state
        → eqb_ℤ price price_invalid ≡ false
        → check_info less side qty (risk ticker_id) ≡ r
        → Moves (try_new_order client_id less risk ticker_id price side qty m)
    unfolding try_new_order check_pre_trade_risk
    try_new_order_checked RiskCheckResult.allowed idle wanted e = (
      new_order client_id ticker_id price side qty m,
      ground arith,
      inl (record { idle = idle; wanted = wanted; checked = e }, refl),
    )
    try_new_order_checked RiskCheckResult.invalid idle wanted e = (m, ground arith, inr (inr refl))
    try_new_order_checked RiskCheckResult.order_too_large idle wanted e =
        (m, ground arith, inr (inr refl))
    try_new_order_checked RiskCheckResult.position_too_large idle wanted e =
        (m, ground arith, inr (inr refl))
    try_new_order_checked RiskCheckResult.loss_too_large idle wanted e =
        (m, ground arith, inr (inr refl))

    try_new_order_unwanted :
        eqb_ℤ price price_invalid ≡ true
        → try_new_order client_id less risk ticker_id price side qty m ≡ ok m
    unfolding try_new_order
    try_new_order_unwanted e = ground arith

    try_new_order-Moves :
        IsIdle (order_of ticker_id side m).order_state
        → Moves (try_new_order client_id less risk ticker_id price side qty m)
    try_new_order-Moves idle = elim (Bool-cases (eqb_ℤ price price_invalid)) [
      | inl unwanted ↦ (m, try_new_order_unwanted unwanted, inr (inr refl))
      | inr wanted ↦
          try_new_order_checked (check_info less side qty (risk ticker_id)) idle wanted refl
    ]

    move_order-Moves :
        (s : OmOrderState)
        → (order_of ticker_id side m).order_state ≡ s
        → Moves (move_order client_id less risk ticker_id price side qty m)
    unfolding move_order
    move_order-Moves invalid e =
        let (m', ran, moved) = try_new_order-Moves (inl e) in (m', ground arith, moved)
    move_order-Moves dead e =
        let (m', ran, moved) = try_new_order-Moves (inr e) in (m', ground arith, moved)
    move_order-Moves pending_new e = (m, ground arith, inr (inr refl))
    move_order-Moves pending_cancel e = (m, ground arith, inr (inr refl))
    move_order-Moves live e = elim (Bool-cases (eqb_ℤ (order_of ticker_id side m).price price)) [
      | inl same ↦ (m, ground arith, inr (inr refl))
      | inr other ↦ (
        cancel_order client_id ticker_id side m,
        ground arith,
        inr (inl (record { resting = e; elsewhere = other }, refl)),
      )
    ]

  -- `moveOrder` succeeds for an instrument in range. It sends a new order only for an idle order, at a valid price, and if the risk check allows it; it sends a cancel only for a live order at another price; else it changes nothing.
  pub move_order-Moved :
      (ticker_id : ℕ) (price : ℤ) (side : Side) (qty : ℕ) (m : OrderManager)
      → ticker_id < me_max_tickers
      → (m' : OrderManager) × (move_order client_id less risk ticker_id price side qty m ≡ ok m')
        × Moved ticker_id price side qty m m'
  move_order-Moved ticker_id price side qty m h =
      move_order-Moves ticker_id price side qty m h (order_of ticker_id side m).order_state refl
