-- ===== src/Tests/Orders.antt =====
-- The order manager and the risk check at small inputs.
use trading_ecosystem.Prelude.{ℕ, ◌≡◌, refl, inl, ◌≢◌, ◌↔◌, arith, ltb, length, ok}
use trading_ecosystem.Prelude.Int.{pos, ◌+ℤ◌, ◌*ℤ◌}
use trading_ecosystem.Common.Types.{buy}
use trading_ecosystem.Trading.RiskManager.{RiskInfo, check_info, check_pre_trade_risk, allowed}
use trading_ecosystem.Trading.RiskManager.Laws.{
  IsWithinLimits, check_info-allowed, check_info_large_limit,
}
use trading_ecosystem.Trading.OrderManager.{
  OrderManager, order_manager, new_order, move_order, move_orders,
}
use trading_ecosystem.Trading.OrderManager.Moves.{Moved, move_order-Moved}
use trading_ecosystem.Trading.OrderManager.Lifecycle.{
  IsValid, moves, Reach, here, next, Reach-IsValid,
}

-- Profits and losses in whole cents.
abbrev risk_of : ℕ → RiskInfo ℕ
risk_of max_position = record {
  position = pos 3;
  total_pnl = 100;
  risk_cfg = record { max_order_size = 10; max_position = max_position; max_loss = 50 };
}

check_info-allowed_example :
    (check_info ltb buy 4 (risk_of 20) ≡ allowed) ↔ IsWithinLimits ltb buy 4 (risk_of 20)
check_info-allowed_example =
    check_info-allowed ltb buy 4 (risk_of 20) (inl refl) (omega arith) (omega arith)

check_info_large_limit_example : check_info ltb buy 4 (risk_of 3000000000) ≢ allowed
check_info_large_limit_example =
    check_info_large_limit ltb buy 4 (risk_of 3000000000) (omega arith) (omega arith)

abbrev risks : ℕ → RiskInfo ℕ
risks t = risk_of 20

move_order-Moved_example :
    (m' : OrderManager) × (move_order 3 ltb risks 2 (pos 100) buy 4 order_manager ≡ ok m')
    × Moved 3 ltb risks 2 (pos 100) buy 4 order_manager m'
move_order-Moved_example =
    move_order-Moved 3 ltb risks 2 (pos 100) buy 4 order_manager (omega arith)

moved : (m : OrderManager) × Reach 3 ltb order_manager m × (length m.requests ≡ 2)
unfolding move_orders move_order check_pre_trade_risk ◌+ℤ◌ ◌*ℤ◌ new_order
moved = (_, next here (moves risks 2 (pos 100) (pos 102) 4 (omega arith) (omega arith) refl), refl)

Reach-IsValid_example : IsValid moved.0
Reach-IsValid_example = Reach-IsValid 3 ltb moved.1
