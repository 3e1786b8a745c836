-- ===== src/Trading/PositionKeeper/Fills.antt =====
-- The position and the volume that the fills of an instrument add up to.
use trading_ecosystem.Prelude.{
  ℕ, ◌+◌, ◌*◌, ◌%◌, ◌^◌, ◌≤◌, ◌<◌, ◌≡◌, refl, ◌∙◌, ◌⊎◌, inl, inr, List, [], ◌∷◌, arith,
  if◌then◌else◌, All,
}
use trading_ecosystem.Prelude.Int.{ℤ, sub_ℕ, eqb_ℤ}
use trading_ecosystem.Common.Types.{Side, buy, sell, side_to_value}
use trading_ecosystem.Exchange.Messages.{MeClientResponse}
use trading_ecosystem.Trading.Doubles.{Doubles}
use trading_ecosystem.Trading.RiskManager.{to_int32}
use trading_ecosystem.Trading.PositionKeeper.{
  PositionInfo, position_info, to_uint32, moved_position, add_fill,
}

-- The quantities of the fills of a side
abbrev pub filled : Side → List MeClientResponse → ℕ
filled side [] = 0
filled side (r ∷ rs) =
    (if eqb_ℤ (side_to_value side) (side_to_value r.side) then r.exec_qty else 0) + filled side rs

to_uint32-to_int32 : (n : ℕ) → to_uint32 (to_int32 n) ≡ n % 2 ^ 32
to_uint32-to_int32 n = ground arith

-- The position as a number of 32 bits, after a purchase and after a sale
moved_position-buy :
    (z : ℤ) (q : ℕ) → to_uint32 (moved_position z q buy) ≡ (to_uint32 z + q) % 2 ^ 32
moved_position-buy z q = to_uint32-to_int32 _ ∙ omega arith

moved_position-sell :
    (z : ℤ) (q : ℕ) → (to_uint32 (moved_position z q sell) + q) % 2 ^ 32 ≡ to_uint32 z % 2 ^ 32
moved_position-sell z q =
    rw (to_uint32-to_int32 ((to_uint32 z + q * to_uint32 (side_to_value sell) % 2 ^ 32) % 2 ^ 32))
      (omega arith)

position_of_sums :
    (z : ℤ) (n b s : ℕ)
    → z ≡ to_int32 n
    → (to_uint32 z + s) % 2 ^ 32 ≡ b % 2 ^ 32
    → b < s + 2 ^ 31
    → s ≤ b + 2 ^ 31
    → z ≡ sub_ℕ b s
position_of_sums z n b s e h low high = ground arith

module _ {Double : Type 0} (d : Doubles Double) where
  add_fill-position :
      (r : MeClientResponse) (p : PositionInfo Double)
      → (add_fill d r p).position ≡ moved_position p.position r.exec_qty r.side
  unfolding add_fill
  add_fill-position r p = ground arith

  add_fill-volume :
      (r : MeClientResponse) (p : PositionInfo Double)
      → (add_fill d r p).volume ≡ (p.volume + r.exec_qty) % 2 ^ 32
  unfolding add_fill
  add_fill-volume r p = ground arith

  unfoldable pub add_fills : List MeClientResponse → PositionInfo Double → PositionInfo Double
  add_fills [] p = p
  add_fills (r ∷ rs) p = add_fills rs (add_fill d r p)

  -- What is bought and sold so far, against a position and a volume
  record Keeps (b s : ℕ) (p : PositionInfo Double) : Type 0 where
    low : ℕ
    stored : p.position ≡ to_int32 low
    net : (to_uint32 p.position + s) % 2 ^ 32 ≡ b % 2 ^ 32
    volume : p.volume ≡ (b + s) % 2 ^ 32

  add_fill-Keeps :
      (r : MeClientResponse) (p : PositionInfo Double) (b s : ℕ)
      → (r.side ≡ buy) ⊎ (r.side ≡ sell)
      → Keeps b s p
      → Keeps (filled buy (r ∷ []) + b) (filled sell (r ∷ []) + s) (add_fill d r p)
  add_fill-Keeps r p b s (inl e) k = record {
    low = (to_uint32 p.position + r.exec_qty * to_uint32 (side_to_value r.side) % 2 ^ 32) % 2 ^ 32;
    stored = add_fill-position r p;
    net =
        rw (add_fill-position r p, e, moved_position-buy p.position r.exec_qty)
          (omega (arith, k.net));
    volume = rw (add_fill-volume r p, e) (omega (arith, k.volume));
  }
  add_fill-Keeps r p b s (inr e) k = record {
    low = (to_uint32 p.position + r.exec_qty * to_uint32 (side_to_value r.side) % 2 ^ 32) % 2 ^ 32;
    stored = add_fill-position r p;
    net =
        rw (add_fill-position r p, e)
          (omega (arith, k.net, moved_position-sell p.position r.exec_qty));
    volume = rw (add_fill-volume r p, e) (omega (arith, k.volume));
  }

  Keeps-cong :
      {b b' s s' : ℕ} {p : PositionInfo Double} → b ≡ b' → s ≡ s' → Keeps b s p → Keeps b' s' p
  Keeps-cong eb es k = record {
    low = k.low;
    stored = k.stored;
    net = omega (arith, eb, es, k.net);
    volume = omega (arith, eb, es, k.volume);
  }

  add_fills-Keeps :
      (rs : List MeClientResponse) (p : PositionInfo Double) (b s : ℕ)
      → All (λ r. (r.side ≡ buy) ⊎ (r.side ≡ sell)) rs
      → Keeps b s p
      → Keeps (filled buy rs + b) (filled sell rs + s) (add_fills rs p)
  unfolding add_fills
  add_fills-Keeps [] p b s h k = Keeps-cong (omega arith) (omega arith) k
  add_fills-Keeps (r ∷ rs) p b s h k =
      Keeps-cong (omega arith) (omega arith)
        (add_fills-Keeps rs (add_fill d r p) _ _ h.1 (add_fill-Keeps r p b s h.0 k))

  position_info-Keeps : (open_vwap : ℕ → Double) → Keeps 0 0 (position_info d open_vwap)
  unfolding position_info
  position_info-Keeps open_vwap = record { low = 0; stored = refl; net = refl; volume = refl }

  -- After fills that are purchases and sales, with less than 2^31 between the totals, the position is what was bought less what was sold, and the volume the sum of both in 32 bits. Sums that leave the 32 bits in between do no harm, and neither prices nor the uninitialised averages matter.
  pub add_fills-sums :
      (open_vwap : ℕ → Double) (rs : List MeClientResponse)
      → All (λ r. (r.side ≡ buy) ⊎ (r.side ≡ sell)) rs
      → filled buy rs < filled sell rs + 2 ^ 31
      → filled sell rs ≤ filled buy rs + 2 ^ 31
      → ((add_fills rs (position_info d open_vwap)).position
          ≡ sub_ℕ (filled buy rs) (filled sell rs))
        × ((add_fills rs (position_info d open_vwap)).volume
            ≡ (filled buy rs + filled sell rs) % 2 ^ 32)
  add_fills-sums open_vwap rs h low high =
      let k =
        add_fills-Keeps rs (position_info d open_vwap) 0 0 h (position_info-Keeps open_vwap) in
      (
        position_of_sums _ k.low (filled buy rs) (filled sell rs) k.stored (omega (arith, k.net))
            low high,
        omega (arith, k.volume),
      )
