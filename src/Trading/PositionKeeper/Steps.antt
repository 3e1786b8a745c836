-- ===== src/Trading/PositionKeeper/Steps.antt =====
-- What the parts of `addFill` in trading/strategy/position_keeper.h do to the averages.
use trading_ecosystem.Prelude.{
  ℕ, zero, suc, ◌-◌, ◌*◌, ◌^◌, ◌≤◌, ◌<◌, ◌≡◌, refl, ◌⊎◌, inl, inr, true, false, arith,
}
use trading_ecosystem.Prelude.Int.{
  ℤ, pos, negsuc, pos_part, neg_part, ◌*ℤ◌, ltb_ℤ, leb_ℤ, sub_ℕ, wrap_ℤ,
}
use trading_ecosystem.Common.Types.{buy, sell}
use trading_ecosystem.Exchange.Messages.{MeClientResponse}
use trading_ecosystem.Trading.Doubles.{Doubles}
use trading_ecosystem.Trading.PositionKeeper.{PositionInfo, vwap, increase, decrease, settle}

pub mul_pos : (a b : ℕ) → 0 < a → 0 < b → 0 < a * b
mul_pos a b h k = grind arith

mul_le : (a c b : ℕ) → a ≤ c → a * b ≤ c * b
mul_le a c zero h = omega arith
mul_le a c (suc b) h = grind (arith, mul_le a c b h)

-- A product with a smaller factor fits where the product does.
pub mul_fits : (a c b : ℕ) → a ≤ c → c * b < 2 ^ 31 → a * b < 2 ^ 31
mul_fits a c b h fits = omega (arith, mul_le a c b h)

pub same_sign :
    (a b : ℕ) → a * b < 2 ^ 31 → ltb_ℤ (wrap_ℤ (2 ^ 31) (pos a *ℤ pos b)) (pos 0) ≡ false
unfolding ◌*ℤ◌
same_sign a b fits = ground arith

pub same_sign_neg :
    (a b : ℕ)
    → suc a * suc b < 2 ^ 31
    → ltb_ℤ (wrap_ℤ (2 ^ 31) (negsuc a *ℤ negsuc b)) (pos 0) ≡ false
unfolding ◌*ℤ◌
same_sign_neg a b fits = ground arith

pub flips_up :
    (a b : ℕ)
    → 0 < a
    → a * suc b < 2 ^ 31
    → ltb_ℤ (wrap_ℤ (2 ^ 31) (pos a *ℤ negsuc b)) (pos 0) ≡ true
unfolding ◌*ℤ◌
flips_up a b h fits = ground (arith, mul_pos a (suc b) h (omega arith))

pub flips_down :
    (a b : ℕ)
    → 0 < b
    → suc a * b < 2 ^ 31
    → ltb_ℤ (wrap_ℤ (2 ^ 31) (negsuc a *ℤ pos b)) (pos 0) ≡ true
unfolding ◌*ℤ◌
flips_down a b h fits = ground (arith, mul_pos (suc a) b (omega arith) h)

pub increases_long : (n : ℕ) → n < 2 ^ 31 → leb_ℤ (pos 0) (wrap_ℤ (2 ^ 31) (pos n *ℤ pos 1)) ≡ true
unfolding ◌*ℤ◌
increases_long n h = ground arith

pub increases_short :
    (n : ℕ) → suc n < 2 ^ 31 → leb_ℤ (pos 0) (wrap_ℤ (2 ^ 31) (negsuc n *ℤ negsuc 0)) ≡ true
unfolding ◌*ℤ◌
increases_short n h = ground arith

pub decreases_short :
    (n : ℕ) → suc n < 2 ^ 31 → leb_ℤ (pos 0) (wrap_ℤ (2 ^ 31) (negsuc n *ℤ pos 1)) ≡ false
unfolding ◌*ℤ◌
decreases_short n h = ground arith

pub decreases_long :
    (n : ℕ) → suc n < 2 ^ 31 → leb_ℤ (pos 0) (wrap_ℤ (2 ^ 31) (pos (suc n) *ℤ negsuc 0)) ≡ false
unfolding ◌*ℤ◌
decreases_long n h = ground arith

pub increases_flat : leb_ℤ (pos 0) (wrap_ℤ (2 ^ 31) (pos 0 *ℤ negsuc 0)) ≡ true
unfolding ◌*ℤ◌
increases_flat = refl

pub sub_less : (a b : ℕ) → a < b → sub_ℕ a b ≡ negsuc (b - a - 1)
sub_less a b h = ground arith

pub sub_more : (a b : ℕ) → b < a → sub_ℕ a b ≡ pos (a - b)
sub_more a b h = ground arith

pub compare_ℕ : (a b : ℕ) → (a < b) ⊎ ((a ≡ b) ⊎ (b < a))
compare_ℕ a b = ground arith

module _ {Double : Type 0} (d : Doubles Double) where
  -- There is no average of purchases without a long position, and none of sales without a short one.
  pub record Sided (p : PositionInfo Double) : Type 0 where
    pub long : pos_part p.position ≡ 0 → vwap d buy p ≡ d.of_int (pos 0)
    pub short : neg_part p.position ≡ 0 → vwap d sell p ≡ d.of_int (pos 0)

  -- A flat position has no averages and no unrealized profit.
  pub settle-flat :
      (price : Double) (p : PositionInfo Double) → p.position ≡ pos 0 → Sided (settle d price p)
  unfolding settle
  settle-flat price p e = record { long = ground arith; short = ground arith }

  pub settle-position :
      (price : Double) (p : PositionInfo Double) → (settle d price p).position ≡ p.position
  unfolding settle
  settle-position price p = ground arith

  pub settle-Sided : (price : Double) (p : PositionInfo Double) → Sided p → Sided (settle d price p)
  unfolding settle
  settle-Sided price p i = record { long = ground (arith, i.long); short = ground (arith, i.short) }

  -- What opening and decreasing a position do to the averages
  pub increase_buy :
      (r : MeClientResponse) (p : PositionInfo Double)
      → r.side ≡ buy
      → vwap d sell (increase d r p) ≡ vwap d sell p
  unfolding increase
  increase_buy r p e = rw (increase, e) refl

  pub increase_sell :
      (r : MeClientResponse) (p : PositionInfo Double)
      → r.side ≡ sell
      → vwap d buy (increase d r p) ≡ vwap d buy p
  unfolding increase
  increase_sell r p e = rw (increase, e) refl

  pub decrease_buy :
      (old : ℤ) (r : MeClientResponse) (p : PositionInfo Double)
      → r.side ≡ buy
      → ltb_ℤ (wrap_ℤ (2 ^ 31) (p.position *ℤ old)) (pos 0) ≡ false
      → vwap d buy (decrease d old r p) ≡ vwap d buy p
  unfolding decrease
  decrease_buy old r p e same = rw (decrease, same, e) refl

  pub decrease_sell :
      (old : ℤ) (r : MeClientResponse) (p : PositionInfo Double)
      → r.side ≡ sell
      → ltb_ℤ (wrap_ℤ (2 ^ 31) (p.position *ℤ old)) (pos 0) ≡ false
      → vwap d sell (decrease d old r p) ≡ vwap d sell p
  unfolding decrease
  decrease_sell old r p e same = rw (decrease, same, e) refl

  pub flip_buy :
      (old : ℤ) (r : MeClientResponse) (p : PositionInfo Double)
      → r.side ≡ buy
      → ltb_ℤ (wrap_ℤ (2 ^ 31) (p.position *ℤ old)) (pos 0) ≡ true
      → vwap d sell (decrease d old r p) ≡ d.of_int (pos 0)
  unfolding decrease
  flip_buy old r p e flipped = rw (decrease, flipped, e) refl

  pub flip_sell :
      (old : ℤ) (r : MeClientResponse) (p : PositionInfo Double)
      → r.side ≡ sell
      → ltb_ℤ (wrap_ℤ (2 ^ 31) (p.position *ℤ old)) (pos 0) ≡ true
      → vwap d buy (decrease d old r p) ≡ d.of_int (pos 0)
  unfolding decrease
  flip_sell old r p e flipped = rw (decrease, flipped, e) refl

  pub decrease-position :
      (old : ℤ) (r : MeClientResponse) (p : PositionInfo Double)
      → (decrease d old r p).position ≡ p.position
  unfolding decrease
  decrease-position old r p = ground arith

  pub increase-position :
      (r : MeClientResponse) (p : PositionInfo Double) → (increase d r p).position ≡ p.position
  unfolding increase
  increase-position r p = refl

  pub settle-flat_or :
      (price : Double) (p : PositionInfo Double)
      → (p.position ≡ pos 0) ⊎ Sided p
      → Sided (settle d price p)
  settle-flat_or price p (inl e) = settle-flat price p e
  settle-flat_or price p (inr i) = settle-Sided price p i
