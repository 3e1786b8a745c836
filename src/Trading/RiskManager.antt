-- ===== src/Trading/RiskManager.antt =====
-- trading/strategy/risk_manager.h: the check that an order passes before it is sent. Floating-point
-- numbers are an argument: a type and its test `<`. An `int` that overflows and a conversion to
-- `int32_t` wrap at 32 bits; the absolute value of the least `int`, which the source leaves undefined,
-- is 2^31.
pub mod Laws
use trading_ecosystem.Prelude.{
  ℕ, zero, suc, ◌+◌, ◌-◌, ◌*◌, ◌/◌, ◌%◌, ◌^◌, ◌≤◌, ◌<◌, min, ◌≡◌, refl, sym, ap, ◌∙◌, ◌≢◌, ◌↔◌, ◌⊎◌,
  inl, inr, Bool, true, false, not, ◌&&◌, ◌||◌, Option, none, some, List, [], ◌∷◌, ◌++◌, map, arith,
  ltb, leb, ◌==◌, if◌then◌else◌, ==_iff, ==_refl, Bool-cases, Option-cases, length, length-append,
  length-Perm, nil_of_length, update, All, All-append, Fault, assertion, null_pointer, out_of_range,
  out_of_fuel, Outcome, ok, failed, ◌>>=◌, ◌>>◌, assert, in_range, deref, >>=-eq-ok,
}
use trading_ecosystem.Prelude.Int.{ℤ, pos, negsuc, ◌+ℤ◌, ◌*ℤ◌, ltb_ℤ, wrap_ℤ, abs}
use trading_ecosystem.Common.Types.{Side, side_to_value, me_max_tickers}

pub data RiskCheckResult : Type 0 where
  invalid order_too_large position_too_large loss_too_large allowed : RiskCheckResult

pub record RiskCfg (Double : Type 0) : Type 0 where
  pub max_order_size : ℕ
  pub max_position : ℕ
  pub max_loss : Double

-- `RiskInfo`, with the two fields of its `position_info_` that the check reads.
pub record RiskInfo (Double : Type 0) : Type 0 where
  pub position : ℤ
  pub total_pnl : Double
  pub risk_cfg : RiskCfg Double

-- `static_cast<int32_t>(qty)`
abbrev pub to_int32 : ℕ → ℤ
to_int32 n =
    if ltb (n % 2 ^ 32) (2 ^ 31) then pos (n % 2 ^ 32) else negsuc (2 ^ 32 - 1 - n % 2 ^ 32)

module _ {Double : Type 0} (less : Double → Double → Bool) where
  -- The position if the order is filled in full.
  abbrev pub position_after : Side → ℕ → RiskInfo Double → ℤ
  position_after side qty r =
      wrap_ℤ (2 ^ 31) (r.position +ℤ wrap_ℤ (2 ^ 31) (side_to_value side *ℤ to_int32 qty))

  -- `RiskInfo::checkPreTradeRisk`
  unfoldable pub check_info : Side → ℕ → RiskInfo Double → RiskCheckResult
  check_info side qty r =
      if ltb r.risk_cfg.max_order_size qty
      then order_too_large
      else if ltb_ℤ (to_int32 r.risk_cfg.max_position) (pos (abs (position_after side qty r)))
      then position_too_large
      else if less r.total_pnl r.risk_cfg.max_loss
      then loss_too_large
      else allowed

  -- `RiskManager::checkPreTradeRisk`, with the table `ticker_risk_`
  unfoldable pub check_pre_trade_risk :
      (ℕ → RiskInfo Double) → ℕ → Side → ℕ → Outcome RiskCheckResult
  unfolding check_info
  check_pre_trade_risk ticker_risk ticker_id side qty = do
    in_range (ltb ticker_id me_max_tickers)
    ok (check_info side qty (ticker_risk ticker_id))
