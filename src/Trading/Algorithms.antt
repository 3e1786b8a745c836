-- ===== src/Trading/Algorithms.antt =====
-- trading/strategy/market_maker.h and liquidity_taker.h: the two trading algorithms. The configuration
-- of the instruments is `TradeEngineCfg` of common/types.h. Sums of a price and 1 are exact.
pub mod Quotes
use trading_ecosystem.Prelude.{ℕ, ◌&&◌, ltb, if◌then◌else◌, Outcome, ok, ◌>>◌, in_range}
use trading_ecosystem.Prelude.Int.{ℤ, pos, ◌+ℤ◌, ◌-ℤ◌}
use trading_ecosystem.Common.Types.{is_buy, me_max_tickers, price_invalid}
use trading_ecosystem.Exchange.Messages.{MeMarketUpdate}
use trading_ecosystem.Trading.Doubles.{Doubles}
use trading_ecosystem.Trading.MarketOrderBook.State.{Bbo}
use trading_ecosystem.Trading.FeatureEngine.{FeatureEngine, has_both, feature_invalid}
use trading_ecosystem.Trading.RiskManager.{RiskCfg, RiskInfo}
use trading_ecosystem.Trading.OrderManager.{OrderManager, move_orders}

pub record TradeEngineCfg (Double : Type 0) : Type 0 where
  pub clip : ℕ
  pub threshold : Double
  pub risk_cfg : RiskCfg Double

module _ {Double : Type 0} (d : Doubles Double) where
  -- The prices that the market maker asks for, from the fair price and the threshold
  abbrev pub maker_bid : Double → Double → Bbo → ℤ
  maker_bid fair threshold bbo =
      bbo.bid_price
      -ℤ pos (if d.at_least (d.sub fair (d.of_int bbo.bid_price)) threshold then 0 else 1)

  abbrev pub maker_ask : Double → Double → Bbo → ℤ
  maker_ask fair threshold bbo =
      bbo.ask_price
      +ℤ pos (if d.at_least (d.sub (d.of_int bbo.ask_price) fair) threshold then 0 else 1)

  module _ (client_id : ℕ) (ticker_cfg : ℕ → TradeEngineCfg Double)
      (risk : ℕ → RiskInfo Double) where
    -- `MarketMaker::onOrderBookUpdate`
    unfoldable pub maker_on_order_book_update :
        ℕ → Bbo → FeatureEngine Double → OrderManager → Outcome OrderManager
    maker_on_order_book_update ticker_id bbo f m =
        if has_both bbo && d.differs f.mkt_price (feature_invalid d)
        then (do
          in_range (ltb ticker_id me_max_tickers)
          let cfg = ticker_cfg ticker_id
          move_orders client_id d.less risk ticker_id (maker_bid f.mkt_price cfg.threshold bbo)
              (maker_ask f.mkt_price cfg.threshold bbo) cfg.clip m)
        else ok m

    -- `LiquidityTaker::onTradeUpdate`
    unfoldable pub taker_on_trade_update :
        MeMarketUpdate → Bbo → FeatureEngine Double → OrderManager → Outcome OrderManager
    taker_on_trade_update u bbo f m =
        if has_both bbo && d.differs f.agg_trade_qty_ratio (feature_invalid d)
        then (do
          in_range (ltb u.ticker_id me_max_tickers)
          let cfg = ticker_cfg u.ticker_id
          if d.at_least f.agg_trade_qty_ratio cfg.threshold
              then if is_buy u.side
                then move_orders client_id d.less risk u.ticker_id bbo.ask_price price_invalid
                    cfg.clip m
                else move_orders client_id d.less risk u.ticker_id price_invalid bbo.bid_price
                    cfg.clip m
              else ok m)
        else ok m
