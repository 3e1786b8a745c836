-- ===== src/Trading/PositionKeeper/Averages.antt =====
-- Which side's average a position keeps.
use trading_ecosystem.Prelude.{
  ℕ, zero, suc, ◌+◌, ◌-◌, ◌*◌, ◌%◌, ◌^◌, ◌<◌, ◌≡◌, refl, ◌∙◌, ◌⊎◌, inl, inr, true, false, arith,
  ◌==◌, Bool-cases,
}
use trading_ecosystem.Prelude.Int.{
  ℤ, pos, negsuc, pos_part, neg_part, ◌*ℤ◌, leb_ℤ, sub_ℕ, wrap_ℤ, abs,
}
use trading_ecosystem.Common.Types.{buy, sell, side_to_value}
use trading_ecosystem.Exchange.Messages.{MeClientResponse}
use trading_ecosystem.Trading.Doubles.{Doubles}
use trading_ecosystem.Trading.PositionKeeper.{
  PositionInfo, vwap, moved_position, increase, decrease, add_fill,
}
use trading_ecosystem.Trading.PositionKeeper.Steps.{
  mul_fits, same_sign, same_sign_neg, flips_up, flips_down, increases_long, increases_short,
  decreases_short, decreases_long, increases_flat, sub_less, sub_more, compare_ℕ, Sided,
  increase_buy, increase_sell, decrease_buy, decrease_sell, flip_buy, flip_sell, decrease-position,
  increase-position, settle-flat_or,
}

module _ {Double : Type 0} (d : Doubles Double) where
  -- The position with the fill, before its averages change
  abbrev moved : MeClientResponse → PositionInfo Double → PositionInfo Double
  moved r p = record p {
    position = moved_position p.position r.exec_qty r.side;
    volume = (p.volume + r.exec_qty) % 2 ^ 32;
  }

  add_fill-increase :
      (r : MeClientResponse) (p : PositionInfo Double)
      → leb_ℤ (pos 0) (wrap_ℤ (2 ^ 31) (p.position *ℤ side_to_value r.side)) ≡ true
      → ((increase d r (moved r p)).position ≡ pos 0) ⊎ Sided d (increase d r (moved r p))
      → Sided d (add_fill d r p)
  unfolding add_fill
  add_fill-increase r p e h =
      let i = settle-flat_or d (d.of_int r.price) (increase d r (moved r p)) h in
      rw (add_fill, e) (record { long = i.long; short = i.short })

  add_fill-decrease :
      (r : MeClientResponse) (p : PositionInfo Double)
      → leb_ℤ (pos 0) (wrap_ℤ (2 ^ 31) (p.position *ℤ side_to_value r.side)) ≡ false
      → ((decrease d p.position r (moved r p)).position ≡ pos 0)
        ⊎ Sided d (decrease d p.position r (moved r p))
      → Sided d (add_fill d r p)
  unfolding add_fill
  add_fill-decrease r p e h =
      let i = settle-flat_or d (d.of_int r.price) (decrease d p.position r (moved r p)) h in
      rw (add_fill, e) (record { long = i.long; short = i.short })

  -- The new position, by the side of the fill and the sign of the old one
  bought_long :
      (r : MeClientResponse) (p : PositionInfo Double) (n : ℕ)
      → r.side ≡ buy
      → p.position ≡ pos n
      → n + r.exec_qty < 2 ^ 31
      → (moved r p).position ≡ pos (n + r.exec_qty)
  bought_long r p n e z h = rw (e, z) (ground arith)

  sold_short :
      (r : MeClientResponse) (p : PositionInfo Double) (n : ℕ)
      → r.side ≡ sell
      → p.position ≡ negsuc n
      → n + r.exec_qty < 2 ^ 31
      → (moved r p).position ≡ negsuc (n + r.exec_qty)
  sold_short r p n e z h = rw (e, z) (ground arith)

  bought_short :
      (r : MeClientResponse) (p : PositionInfo Double) (n : ℕ)
      → r.side ≡ buy
      → p.position ≡ negsuc n
      → n + r.exec_qty < 2 ^ 31
      → (moved r p).position ≡ sub_ℕ r.exec_qty (suc n)
  bought_short r p n e z h = rw (e, z) (ground arith)

  sold_long :
      (r : MeClientResponse) (p : PositionInfo Double) (n : ℕ)
      → r.side ≡ sell
      → p.position ≡ pos n
      → n + r.exec_qty < 2 ^ 31
      → (moved r p).position ≡ sub_ℕ n r.exec_qty
  sold_long r p n e z h = rw (e, z) (ground arith)

  bought_long-Sided :
      (r : MeClientResponse) (p : PositionInfo Double) (n : ℕ)
      → r.side ≡ buy
      → p.position ≡ pos n
      → n + r.exec_qty < 2 ^ 31
      → Sided d p
      → Sided d (add_fill d r p)
  bought_long-Sided r p n e z h i =
      let now = increase-position d r (moved r p) ∙ bought_long r p n e z h in
      add_fill-increase r p (rw (e, z) (increases_long n (omega arith)))
        (elim (Bool-cases (n + r.exec_qty == 0)) [
          | inl flat ↦ inl (now ∙ ground arith)
          | inr held ↦ inr (record {
            long = λ gone. absurd (ground (arith, now));
            short = λ _. increase_buy d r (moved r p) e ∙ i.short (rw z refl);
          })
        ])

  sold_short-Sided :
      (r : MeClientResponse) (p : PositionInfo Double) (n : ℕ)
      → r.side ≡ sell
      → p.position ≡ negsuc n
      → suc n + r.exec_qty < 2 ^ 31
      → Sided d p
      → Sided d (add_fill d r p)
  sold_short-Sided r p n e z h i =
      let now = increase-position d r (moved r p) ∙ sold_short r p n e z (omega arith) in
      add_fill-increase r p (rw (e, z) (increases_short n (omega arith))) (
        inr (record {
          long = λ _. increase_sell d r (moved r p) e ∙ i.long (rw z refl);
          short = λ gone. absurd (ground (arith, now));
        }))

  bought_short-Sided :
      (r : MeClientResponse) (p : PositionInfo Double) (n : ℕ)
      → r.side ≡ buy
      → p.position ≡ negsuc n
      → suc n + r.exec_qty < 2 ^ 31
      → (suc n + r.exec_qty) * suc n < 2 ^ 31
      → Sided d p
      → Sided d (add_fill d r p)
  bought_short-Sided r p n e z h fits i =
      let now = bought_short r p n e z (omega arith) in
      let kept = decrease-position d p.position r (moved r p) ∙ now in
      add_fill-decrease r p (rw (e, z) (decreases_short n (omega (arith, h))))
        (elim (compare_ℕ r.exec_qty (suc n)) [
          | inl less ↦ inr (record {
            long = λ _.
                decrease_buy d p.position r (moved r p) e (
                  rw (now, z, sub_less r.exec_qty (suc n) less)
                    (same_sign_neg (suc n - r.exec_qty - 1) n
                      (mul_fits _ (suc n + r.exec_qty) (suc n) (omega arith) fits)))
                ∙ i.long (rw z refl);
            short = λ gone. absurd (ground (arith, kept));
          })
          | inr (inl same) ↦ inl (kept ∙ ground arith)
          | inr (inr more) ↦ inr (record {
            long = λ gone. absurd (ground (arith, kept));
            short = λ _. flip_buy d p.position r (moved r p) e (
                rw (now, z, sub_more r.exec_qty (suc n) more)
                  (flips_up _ n (omega arith)
                    (mul_fits _ (suc n + r.exec_qty) (suc n) (omega arith) fits)));
          })
        ])

  sold_long-Sided :
      (r : MeClientResponse) (p : PositionInfo Double) (n : ℕ)
      → r.side ≡ sell
      → p.position ≡ pos (suc n)
      → suc n + r.exec_qty < 2 ^ 31
      → (suc n + r.exec_qty) * suc n < 2 ^ 31
      → Sided d p
      → Sided d (add_fill d r p)
  sold_long-Sided r p n e z h fits i =
      let now = sold_long r p (suc n) e z h in
      let kept = decrease-position d p.position r (moved r p) ∙ now in
      add_fill-decrease r p (rw (e, z) (decreases_long n (omega arith)))
        (elim (compare_ℕ (suc n) r.exec_qty) [
          | inl more ↦ inr (record {
            long = λ _. flip_sell d p.position r (moved r p) e (
                rw (now, z, sub_less (suc n) r.exec_qty more)
                  (flips_down _ (suc n) (omega arith)
                    (mul_fits _ (suc n + r.exec_qty) (suc n) (omega arith) fits)));
            short = λ gone. absurd (ground (arith, kept));
          })
          | inr (inl same) ↦ inl (kept ∙ ground arith)
          | inr (inr less) ↦ inr (record {
            long = λ gone. absurd (ground (arith, kept));
            short = λ _.
                decrease_sell d p.position r (moved r p) e (
                  rw (now, z, sub_more (suc n) r.exec_qty less)
                    (same_sign _ (suc n)
                      (mul_fits _ (suc n + r.exec_qty) (suc n) (omega arith) fits)))
                ∙ i.short (rw z refl);
          })
        ])

  -- A sale without a position opens a short one.
  sold_flat-Sided :
      (r : MeClientResponse) (p : PositionInfo Double)
      → r.side ≡ sell
      → p.position ≡ pos 0
      → r.exec_qty < 2 ^ 31
      → Sided d p
      → Sided d (add_fill d r p)
  sold_flat-Sided r p e z h i =
      let now = increase-position d r (moved r p) ∙ sold_long r p 0 e z (omega arith) in
      add_fill-increase r p (rw (e, z) increases_flat) (elim (Bool-cases (r.exec_qty == 0)) [
        | inl flat ↦ inl (now ∙ ground arith)
        | inr held ↦ inr (record {
          long = λ _. increase_sell d r (moved r p) e ∙ i.long (rw z refl);
          short = λ gone. absurd (ground (arith, now));
        })
      ])

  add_fill_from-Sided :
      (z : ℤ) (r : MeClientResponse) (p : PositionInfo Double)
      → p.position ≡ z
      → (r.side ≡ buy) ⊎ (r.side ≡ sell)
      → abs z + r.exec_qty < 2 ^ 31
      → (abs z + r.exec_qty) * abs z < 2 ^ 31
      → Sided d p
      → Sided d (add_fill d r p)
  add_fill_from-Sided (pos n) r p z (inl e) h fits i = bought_long-Sided r p n e z (omega arith) i
  add_fill_from-Sided (negsuc n) r p z (inl e) h fits i =
      bought_short-Sided r p n e z (omega arith) (omega arith) i
  add_fill_from-Sided (negsuc n) r p z (inr e) h fits i = sold_short-Sided r p n e z (omega arith) i
  add_fill_from-Sided (pos zero) r p z (inr e) h fits i = sold_flat-Sided r p e z (omega arith) i
  add_fill_from-Sided (pos (suc n)) r p z (inr e) h fits i =
      sold_long-Sided r p n e z (omega arith) (omega arith) i

  -- The average of a side is zero or the position is on that side.
  pub record IsOneSided (p : PositionInfo Double) : Type 0 where
    pub long : (vwap d buy p ≡ d.of_int (pos 0)) ⊎ (0 < pos_part p.position)
    pub short : (vwap d sell p ≡ d.of_int (pos 0)) ⊎ (0 < neg_part p.position)

  Sided-IsOneSided : (p : PositionInfo Double) → Sided d p → IsOneSided p
  Sided-IsOneSided p i = record {
    long = elim (Bool-cases (pos_part p.position == 0)) [
      | inl gone ↦ inl (i.long (ground arith))
      | inr held ↦ inr (ground arith)
    ];
    short = elim (Bool-cases (neg_part p.position == 0)) [
      | inl gone ↦ inl (i.short (ground arith))
      | inr held ↦ inr (ground arith)
    ];
  }

  IsOneSided-Sided : (p : PositionInfo Double) → IsOneSided p → Sided d p
  IsOneSided-Sided p i = record {
    long = λ gone. elim i.long [ inl e ↦ e | inr held ↦ absurd (omega (arith, gone)) ];
    short = λ gone. elim i.short [ inl e ↦ e | inr held ↦ absurd (omega (arith, gone)) ];
  }

  -- A purchase or sale that can take neither the position out of 32 bits, nor the product of the old and the new position, leaves an average of purchases only if the position is long, and an average of sales only if it is short, if that was so before: whether the fill opens, increases, decreases, closes or flips the position.
  pub add_fill-IsOneSided :
      (r : MeClientResponse) (p : PositionInfo Double)
      → (r.side ≡ buy) ⊎ (r.side ≡ sell)
      → abs p.position + r.exec_qty < 2 ^ 31
      → (abs p.position + r.exec_qty) * abs p.position < 2 ^ 31
      → IsOneSided p
      → IsOneSided (add_fill d r p)
  add_fill-IsOneSided r p s h fits i =
      Sided-IsOneSided _ (add_fill_from-Sided p.position r p refl s h fits (IsOneSided-Sided p i))
