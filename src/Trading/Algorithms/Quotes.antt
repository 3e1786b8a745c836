-- ===== src/Trading/Algorithms/Quotes.antt =====
-- The orders that the algorithms ask for.
use trading_ecosystem.Prelude.{
  ℕ, ◌<◌, ◌≡◌, refl, ◌⊎◌, ◌≢◌, Bool, true, false, arith, ltb, if◌then◌else◌,
}
use trading_ecosystem.Prelude.Int.{ℤ, pos, ◌+ℤ◌, ◌-ℤ◌, ◌≤ℤ◌}
use trading_ecosystem.Common.Types.{Side, buy, sell, is_buy, me_max_tickers, price_invalid}
use trading_ecosystem.Exchange.Messages.{MeMarketUpdate}
use trading_ecosystem.Trading.Doubles.{Doubles}
use trading_ecosystem.Trading.MarketOrderBook.State.{Bbo}
use trading_ecosystem.Trading.FeatureEngine.{FeatureEngine, has_both}
use trading_ecosystem.Trading.RiskManager.{RiskInfo}
use trading_ecosystem.Trading.OrderManager.{OrderManager, order_of, live, move_orders, cancel_order}
use trading_ecosystem.Trading.OrderManager.Moves.{Moved}
use trading_ecosystem.Trading.Algorithms.{
  TradeEngineCfg, maker_bid, maker_ask, maker_on_order_book_update,
}

tick_below :
    (x : ℤ) (b : Bool)
    → ((x -ℤ pos (if b then 0 else 1)) ≤ℤ x) × (x ≤ℤ (x -ℤ pos (if b then 0 else 1)) +ℤ pos 1)
unfolding ◌-ℤ◌ ◌+ℤ◌
tick_below x b = ground arith

tick_above :
    (x : ℤ) (b : Bool)
    → (x ≤ℤ (x +ℤ pos (if b then 0 else 1))) × ((x +ℤ pos (if b then 0 else 1)) ≤ℤ x +ℤ pos 1)
unfolding ◌+ℤ◌
tick_above x b = ground arith

module _ {Double : Type 0} (d : Doubles Double) (client_id : ℕ)
    (ticker_cfg : ℕ → TradeEngineCfg Double) (risk : ℕ → RiskInfo Double) where
  -- The prices of a pair of quotes: not better than the best bid and offer, and one tick behind them at most.
  pub record IsPassive (bbo : Bbo) (bid ask : ℤ) : Type 0 where
    pub bid_high : bid ≤ℤ bbo.bid_price
    pub bid_low : bbo.bid_price ≤ℤ bid +ℤ pos 1
    pub ask_low : bbo.ask_price ≤ℤ ask
    pub ask_high : ask ≤ℤ bbo.ask_price +ℤ pos 1

  maker-move_orders :
      (ticker_id : ℕ) (bbo : Bbo) (f : FeatureEngine Double) (m : OrderManager)
      → ltb ticker_id me_max_tickers ≡ true
      → has_both bbo ≡ true
      → d.differs f.mkt_price d.quiet_nan ≡ true
      → maker_on_order_book_update d client_id ticker_cfg risk ticker_id bbo f m
        ≡ move_orders client_id d.less risk ticker_id
            (maker_bid d f.mkt_price (ticker_cfg ticker_id).threshold bbo)
            (maker_ask d f.mkt_price (ticker_cfg ticker_id).threshold bbo)
            (ticker_cfg ticker_id).clip
            m
  unfolding maker_on_order_book_update
  maker-move_orders ticker_id bbo f m h both fair =
      rw (maker_on_order_book_update, both, fair, h) refl

  -- With both prices and a fair price, the market maker moves its two orders of the instrument to prices that are not better than the best bid and offer and at most one tick behind them, in the size of the configuration.
  pub maker_on_order_book_update-IsPassive :
      (ticker_id : ℕ) (bbo : Bbo) (f : FeatureEngine Double) (m : OrderManager)
      → ticker_id < me_max_tickers
      → has_both bbo ≡ true
      → d.differs f.mkt_price d.quiet_nan ≡ true
      → (bid : ℤ) × (ask : ℤ) × IsPassive bbo bid ask
        × (maker_on_order_book_update d client_id ticker_cfg risk ticker_id bbo f m
            ≡ move_orders client_id d.less risk ticker_id bid ask (ticker_cfg ticker_id).clip m)
  maker_on_order_book_update-IsPassive ticker_id bbo f m h both fair =
      let cfg = ticker_cfg ticker_id in
      let below =
        tick_below bbo.bid_price
          (d.at_least (d.sub f.mkt_price (d.of_int bbo.bid_price)) cfg.threshold) in
      let above =
        tick_above bbo.ask_price
          (d.at_least (d.sub (d.of_int bbo.ask_price) f.mkt_price) cfg.threshold) in
      (
        maker_bid d f.mkt_price cfg.threshold bbo,
        maker_ask d f.mkt_price cfg.threshold bbo,
        record { bid_high = below.0; bid_low = below.1; ask_low = above.0; ask_high = above.1 },
        maker-move_orders ticker_id bbo f m (ground arith) both fair,
      )

  -- An order of a side is cancelled or left as it is.
  abbrev pub Withdrawn : ℕ → Side → OrderManager → OrderManager → Type 0
  Withdrawn ticker_id side m m' =
      (m' ≡ m)
      ⊎ (((order_of ticker_id side m).order_state ≡ live)
          × (m' ≡ cancel_order client_id ticker_id side m))

  -- The liquidity taker leaves a trade alone: a price is missing, or the ratio of the trade does not differ from `Feature_INVALID` or is below the threshold.
  abbrev pub IsIdle : MeMarketUpdate → Bbo → FeatureEngine Double → Type 0
  IsIdle u bbo f =
      ((bbo.bid_price ≡ price_invalid) ⊎ (bbo.ask_price ≡ price_invalid))
      ⊎ ((d.differs f.agg_trade_qty_ratio d.quiet_nan ≡ false)
          ⊎ (d.at_least f.agg_trade_qty_ratio (ticker_cfg u.ticker_id).threshold ≡ false))

  -- It acts: both prices are there, and the ratio is at or above the threshold.
  pub record IsDue (u : MeMarketUpdate) (bbo : Bbo) (f : FeatureEngine Double) : Type 0 where
    pub bid : bbo.bid_price ≢ price_invalid
    pub ask : bbo.ask_price ≢ price_invalid
    pub computed : d.differs f.agg_trade_qty_ratio d.quiet_nan ≡ true
    pub high : d.at_least f.agg_trade_qty_ratio (ticker_cfg u.ticker_id).threshold ≡ true

  -- What the liquidity taker does about a trade: nothing, or take the offer with a purchase, or the bid with a sale, in the size of the configuration; its order of the other side is at most cancelled.
  pub data Taken (u : MeMarketUpdate) (bbo : Bbo) (f : FeatureEngine Double)
      : OrderManager → OrderManager → Type 0 where
    unmoved : (m : OrderManager) → IsIdle u bbo f → Taken u bbo f m m
    bought :
        (m m1 m2 : OrderManager)
        → IsDue u bbo f
        → is_buy u.side ≡ true
        → Moved client_id d.less risk u.ticker_id bbo.ask_price buy
            (ticker_cfg u.ticker_id).clip
            m
            m1
        → Withdrawn u.ticker_id sell m1 m2
        → Taken u bbo f m m2
    sold :
        (m m1 m2 : OrderManager)
        → IsDue u bbo f
        → is_buy u.side ≡ false
        → Withdrawn u.ticker_id buy m m1
        → Moved client_id d.less risk u.ticker_id bbo.bid_price sell
            (ticker_cfg u.ticker_id).clip
            m1
            m2
        → Taken u bbo f m m2
