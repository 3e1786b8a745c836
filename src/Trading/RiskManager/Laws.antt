-- ===== src/Trading/RiskManager/Laws.antt =====
-- The limits of the risk check of trading/strategy/risk_manager.h.
use trading_ecosystem.Prelude.{
  ℕ, ◌+◌, ◌-◌, ◌^◌, ◌≤◌, ◌<◌, ◌≡◌, ◌≢◌, ◌↔◌, ◌⊎◌, inl, inr, Bool, false, arith,
}
use trading_ecosystem.Prelude.Int.{ℤ, pos, negsuc, ◌+ℤ◌, ◌-ℤ◌, ◌*ℤ◌, wrap_ℤ, abs}
use trading_ecosystem.Common.Types.{Side, buy, sell, side_to_value}
use trading_ecosystem.Trading.RiskManager.{allowed, RiskInfo, to_int32, position_after, check_info}

to_int32_small : (n : ℕ) → n < 2 ^ 31 → to_int32 n ≡ pos n
to_int32_small n h = ground arith

to_int32_large : (n : ℕ) → 2 ^ 31 ≤ n → n < 2 ^ 32 → to_int32 n ≡ negsuc (2 ^ 32 - 1 - n)
to_int32_large n h k = ground arith

-- The position of an instrument once a purchase or sale of `qty` is filled
abbrev pub filled : Side → ℕ → ℤ → ℤ
filled buy qty position = position +ℤ pos qty
filled sell qty position = position -ℤ pos qty
filled _ qty position = position

wrap_small : (z : ℤ) → abs z < 2 ^ 31 → wrap_ℤ (2 ^ 31) z ≡ z
wrap_small (pos n) h = ground arith
wrap_small (negsuc n) h = ground arith

abs-filled : (side : Side) (qty : ℕ) (z : ℤ) → abs (filled side qty z) ≤ abs z + qty
unfolding ◌+ℤ◌ ◌-ℤ◌
abs-filled buy qty z = ground arith
abs-filled sell qty z = ground arith
abs-filled _ qty z = ground arith

side_to_value-filled :
    (side : Side) (qty : ℕ) (z : ℤ)
    → (side ≡ buy) ⊎ (side ≡ sell)
    → z +ℤ side_to_value side *ℤ pos qty ≡ filled side qty z
unfolding ◌+ℤ◌ ◌-ℤ◌ ◌*ℤ◌
side_to_value-filled side qty z (inl e) = rw e (ground arith)
side_to_value-filled side qty z (inr e) = rw e (ground arith)

abs-side_to_value :
    (side : Side) (qty : ℕ)
    → (side ≡ buy) ⊎ (side ≡ sell)
    → abs (side_to_value side *ℤ pos qty) ≤ qty
unfolding ◌*ℤ◌
abs-side_to_value side qty (inl e) = rw e (ground arith)
abs-side_to_value side qty (inr e) = rw e (ground arith)

module _ {Double : Type 0} (less : Double → Double → Bool) (side : Side) (qty : ℕ)
    (r : RiskInfo Double) where
  -- The three limits, on whole numbers.
  pub record IsWithinLimits : Type 0 where
    pub order_size : qty ≤ r.risk_cfg.max_order_size
    pub position : abs (filled side qty r.position) ≤ r.risk_cfg.max_position
    pub loss : less r.total_pnl r.risk_cfg.max_loss ≡ false

  -- Without an overflow, the position that the check looks at is the one once the order is filled.
  position_after-filled :
      (side ≡ buy) ⊎ (side ≡ sell)
      → abs r.position + qty < 2 ^ 31
      → position_after less side qty r ≡ filled side qty r.position
  position_after-filled s h =
      rw
        (
          to_int32_small qty (omega arith),
          wrap_small (side_to_value side *ℤ pos qty) (omega (arith, abs-side_to_value side qty s)),
          side_to_value-filled side qty r.position s,
        )
        (wrap_small (filled side qty r.position) (omega (arith, abs-filled side qty r.position)))

  -- With a position limit below 2^31, and a position and a quantity that cannot leave 32 bits, a purchase or sale is allowed exactly if its quantity is within the limit on orders, the position once it is filled within the limit on positions, and the loss within its limit.
  pub check_info-allowed :
      (side ≡ buy) ⊎ (side ≡ sell)
      → abs r.position + qty < 2 ^ 31
      → r.risk_cfg.max_position < 2 ^ 31
      → (check_info less side qty r ≡ allowed) ↔ IsWithinLimits
  unfolding check_info
  check_info-allowed s h small =
      let limit = to_int32_small r.risk_cfg.max_position small in
      let after = position_after-filled s h in
      (λ e. within after limit e, λ w. allows after limit w)
    where
      within :
          position_after less side qty r ≡ filled side qty r.position
          → to_int32 r.risk_cfg.max_position ≡ pos r.risk_cfg.max_position
          → check_info less side qty r ≡ allowed
          → IsWithinLimits
      within after limit e = record {
        order_size = ground (arith, after, limit);
        position = ground (arith, after, limit);
        loss = ground (arith, after, limit);
      }

      allows :
          position_after less side qty r ≡ filled side qty r.position
          → to_int32 r.risk_cfg.max_position ≡ pos r.risk_cfg.max_position
          → IsWithinLimits
          → check_info less side qty r ≡ allowed
      allows after limit w =
          rw (check_info, after, limit) (ground (arith, w.order_size, w.position, w.loss))

  -- A position limit from 2^31 to below 2^32 is read as a negative number: no order is allowed, however small.
  pub check_info_large_limit :
      2 ^ 31 ≤ r.risk_cfg.max_position
      → r.risk_cfg.max_position < 2 ^ 32
      → check_info less side qty r ≢ allowed
  unfolding check_info
  check_info_large_limit large small e =
      ground (arith, to_int32_large r.risk_cfg.max_position large small)
