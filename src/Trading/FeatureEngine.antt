-- ===== src/Trading/FeatureEngine.antt =====
-- trading/strategy/feature_engine.h: the fair price and the ratio of aggressive trades that the
-- algorithms read. A sum of two quantities wraps at 32 bits, the products and the sum of prices at 64.
use trading_ecosystem.Prelude.{ℕ, ◌+◌, ◌%◌, ◌^◌, Bool, not, ◌&&◌, if◌then◌else◌}
use trading_ecosystem.Prelude.Int.{ℤ, pos, ◌+ℤ◌, ◌*ℤ◌, eqb_ℤ, wrap_ℤ}
use trading_ecosystem.Common.Types.{is_buy, price_invalid}
use trading_ecosystem.Exchange.Messages.{MeMarketUpdate}
use trading_ecosystem.Trading.Doubles.{Doubles}
use trading_ecosystem.Trading.MarketOrderBook.State.{Bbo}

pub record FeatureEngine (Double : Type 0) : Type 0 where
  pub mkt_price : Double
  pub agg_trade_qty_ratio : Double

-- Both prices are valid.
abbrev pub has_both : Bbo → Bool
has_both bbo = not (eqb_ℤ bbo.bid_price price_invalid) && not (eqb_ℤ bbo.ask_price price_invalid)

-- The numerator and the denominator of the fair price
abbrev pub weighted_price : Bbo → ℤ
weighted_price bbo = wrap_ℤ (2 ^ 63) (
    wrap_ℤ (2 ^ 63) (bbo.bid_price *ℤ pos bbo.ask_qty)
    +ℤ wrap_ℤ (2 ^ 63) (bbo.ask_price *ℤ pos bbo.bid_qty))

abbrev pub total_qty : Bbo → ℕ
total_qty bbo = (bbo.bid_qty + bbo.ask_qty) % 2 ^ 32

module _ {Double : Type 0} (d : Doubles Double) where
  -- `Feature_INVALID`
  abbrev pub feature_invalid : Double
  feature_invalid = d.quiet_nan

  abbrev pub feature_engine : FeatureEngine Double
  feature_engine = record { mkt_price = feature_invalid; agg_trade_qty_ratio = feature_invalid }

  -- `onOrderBookUpdate`
  unfoldable pub on_order_book_update : Bbo → FeatureEngine Double → FeatureEngine Double
  on_order_book_update bbo f =
      if has_both bbo
      then record f {
        mkt_price = d.div (d.of_int (weighted_price bbo)) (d.of_int (pos (total_qty bbo)));
      }
      else f

  -- `onTradeUpdate`
  unfoldable pub on_trade_update :
      MeMarketUpdate → Bbo → FeatureEngine Double → FeatureEngine Double
  on_trade_update u bbo f =
      if has_both bbo
      then record f {
        agg_trade_qty_ratio =
            d.div (d.of_int (pos u.qty))
              (d.of_int (pos (if is_buy u.side then bbo.ask_qty else bbo.bid_qty)));
      }
      else f
