-- ===== src/Trading/Names.antt =====
-- The names of the enumerations of trading/strategy/om_order.h and trading/strategy/risk_manager.h.
use Prim.Native.String.{String}
use trading_ecosystem.Trading.RiskManager.{RiskCheckResult}
use trading_ecosystem.Trading.OrderManager.{OmOrderState}

unfoldable pub om_order_state_to_string : OmOrderState → String
om_order_state_to_string OmOrderState.pending_new = "PENDING_NEW"
om_order_state_to_string OmOrderState.live = "LIVE"
om_order_state_to_string OmOrderState.pending_cancel = "PENDING_CANCEL"
om_order_state_to_string OmOrderState.dead = "DEAD"
om_order_state_to_string OmOrderState.invalid = "INVALID"

unfoldable pub risk_check_result_to_string : RiskCheckResult → String
risk_check_result_to_string RiskCheckResult.invalid = "INVALID"
risk_check_result_to_string RiskCheckResult.order_too_large = "ORDER_TOO_LARGE"
risk_check_result_to_string RiskCheckResult.position_too_large = "POSITION_TOO_LARGE"
risk_check_result_to_string RiskCheckResult.loss_too_large = "LOSS_TOO_LARGE"
risk_check_result_to_string RiskCheckResult.allowed = "ALLOWED"
