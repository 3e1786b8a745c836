-- ===== src/Trading/TradeEngine.antt =====
-- trading/strategy/trade_engine.h and trade_engine.cpp: the component that hands responses and market
-- data to the strategy's parts. The market maker and the liquidity taker are told apart by the
-- `AlgoType` that the engine was made with, as the constructor sets the callbacks by it. Requests that the order manager has
-- collected go to the outgoing queue when its call returns; nothing reads that queue within the call.
-- The incoming queues are arguments of the loop, which reads what they hold when it starts.
pub mod Responses
use trading_ecosystem.Prelude.{
  ℕ, zero, suc, ◌+◌, ◌-◌, ◌*◌, ◌/◌, ◌%◌, ◌^◌, ◌≤◌, ◌<◌, min, ◌≡◌, refl, sym, ap, ◌∙◌, ◌≢◌, ◌↔◌, ◌⊎◌,
  inl, inr, Bool, true, false, not, ◌&&◌, ◌||◌, Option, none, some, List, [], ◌∷◌, ◌++◌, map, arith,
  ltb, leb, ◌==◌, if◌then◌else◌, ==_iff, ==_refl, Bool-cases, Option-cases, length, length-append,
  length-Perm, nil_of_length, update, All, All-append, Fault, assertion, null_pointer, out_of_range,
  out_of_fuel, Outcome, ok, failed, ◌>>=◌, ◌>>◌, assert, in_range, deref, >>=-eq-ok, >>=-cong,
  >>=-assoc, >>=-≢, deref-fuel, count_below, count_below-le, count_below-same, count_below-cleared,
}
use trading_ecosystem.Prelude.Int.{ℤ}
use trading_ecosystem.Common.Types.{Side, me_max_tickers}
use trading_ecosystem.Common.AlgoType.{AlgoType}
use trading_ecosystem.Common.LfQueue.{LfQueue, push}
use trading_ecosystem.Common.LfQueue.Drain.{drain}
use trading_ecosystem.Exchange.Messages
use trading_ecosystem.Exchange.Messages.{MeClientRequest, MeClientResponse, MeMarketUpdate}
use trading_ecosystem.Trading.Doubles.{Doubles}
use trading_ecosystem.Trading.MarketOrderBook.State.{
  MarketOrderBook, Bbo, Notice, trade_update, order_book_update, get_bbo,
}
use trading_ecosystem.Trading.MarketOrderBook.Updates.{on_market_update}
use trading_ecosystem.Trading.FeatureEngine
use trading_ecosystem.Trading.FeatureEngine.{FeatureEngine}
use trading_ecosystem.Trading.PositionKeeper.{PositionInfo, keeper_add_fill, keeper_update_bbo}
use trading_ecosystem.Trading.RiskManager.{RiskInfo}
use trading_ecosystem.Trading.OrderManager
use trading_ecosystem.Trading.OrderManager.{OrderManager}
use trading_ecosystem.Trading.Algorithms.{
  TradeEngineCfg, maker_on_order_book_update, taker_on_trade_update,
}

pub record TradeEngine (Double : Type 0) : Type 0 where
  pub client_id : ℕ
  pub algo_type : AlgoType
  pub ticker_cfg : ℕ → TradeEngineCfg Double
  pub ticker_order_book : ℕ → MarketOrderBook
  pub outgoing_ogw_requests : LfQueue MeClientRequest
  pub feature_engine : FeatureEngine Double
  pub positions : ℕ → PositionInfo Double
  pub order_manager : OrderManager

module _ {Double : Type 0} where
  -- `sendClientRequest`
  abbrev pub send_client_request : TradeEngine Double → MeClientRequest → TradeEngine Double
  send_client_request e request = record e {
    outgoing_ogw_requests = push e.outgoing_ogw_requests request;
  }

  unfoldable pub send_client_requests :
      List MeClientRequest → TradeEngine Double → TradeEngine Double
  send_client_requests [] e = e
  send_client_requests (request ∷ requests) e =
      send_client_requests requests (send_client_request e request)

  -- What the order manager's call leaves in the engine
  abbrev pub after_orders : OrderManager → TradeEngine Double → TradeEngine Double
  after_orders m e =
      send_client_requests m.requests (record e { order_manager = record m { requests = [] } })

  -- What the risk manager's pointers and its table show of the positions and the configuration
  abbrev pub risk_of : TradeEngine Double → ℕ → RiskInfo Double
  risk_of e i = record {
    position = (e.positions i).position;
    total_pnl = (e.positions i).total_pnl;
    risk_cfg = (e.ticker_cfg i).risk_cfg;
  }

  module _ (d : Doubles Double) where
    -- The function wrapper `algoOnOrderBookUpdate_`
    unfoldable pub algo_on_order_book_update :
        ℕ → Bbo → TradeEngine Double → Outcome (TradeEngine Double)
    algo_on_order_book_update ticker_id bbo e = elim e.algo_type [
      | AlgoType.maker ↦ do
        m ←
            maker_on_order_book_update d e.client_id e.ticker_cfg (risk_of e) ticker_id bbo
              e.feature_engine e.order_manager
        ok (after_orders m e)
      | _ ↦ ok e
    ]

    -- The function wrapper `algoOnTradeUpdate_`
    unfoldable pub algo_on_trade_update :
        MeMarketUpdate → Bbo → TradeEngine Double → Outcome (TradeEngine Double)
    algo_on_trade_update u bbo e = elim e.algo_type [
      | AlgoType.taker ↦ do
        m ←
            taker_on_trade_update d e.client_id e.ticker_cfg (risk_of e) u bbo e.feature_engine
              e.order_manager
        ok (after_orders m e)
      | _ ↦ ok e
    ]

    -- The function wrapper `algoOnOrderUpdate_`: both algorithms pass the response to the order manager.
    unfoldable pub algo_on_order_update :
        MeClientResponse → TradeEngine Double → Outcome (TradeEngine Double)
    algo_on_order_update r e =
        let managed =
          (OrderManager.on_order_update r e.order_manager >>= λ m. ok (after_orders m e)) in
        elim e.algo_type [ AlgoType.maker ↦ managed | AlgoType.taker ↦ managed | _ ↦ ok e ]

    -- `onOrderBookUpdate`
    unfoldable pub on_order_book_update :
        ℕ → Bbo → TradeEngine Double → Outcome (TradeEngine Double)
    unfolding algo_on_order_book_update
    on_order_book_update ticker_id bbo e = do
      positions ← keeper_update_bbo d ticker_id bbo e.positions
      let features = FeatureEngine.on_order_book_update d bbo e.feature_engine
      algo_on_order_book_update ticker_id bbo
          (record e { positions = positions; feature_engine = features })

    -- `onTradeUpdate`
    unfoldable pub on_trade_update :
        MeMarketUpdate → Bbo → TradeEngine Double → Outcome (TradeEngine Double)
    unfolding algo_on_trade_update
    on_trade_update u bbo e =
        algo_on_trade_update u bbo
          (record e { feature_engine = FeatureEngine.on_trade_update d u bbo e.feature_engine })

    -- The position keeper's part of `onOrderUpdate`
    unfoldable pub keep_fill :
        MeClientResponse → (ℕ → PositionInfo Double) → Outcome (ℕ → PositionInfo Double)
    keep_fill r positions = elim r.kind [
      | Messages.ClientResponseType.filled ↦ keeper_add_fill d r positions
      | _ ↦ ok positions
    ]

    -- `onOrderUpdate`
    unfoldable pub on_order_update :
        MeClientResponse → TradeEngine Double → Outcome (TradeEngine Double)
    unfolding keep_fill algo_on_order_update
    on_order_update r e = do
      positions ← keep_fill r e.positions
      algo_on_order_update r (record e { positions = positions })

    -- A call that an order book makes of the engine
    unfoldable pub notify : Bbo → Notice → TradeEngine Double → Outcome (TradeEngine Double)
    notify bbo (trade_update u) e = on_trade_update u bbo e
    notify bbo (order_book_update ticker_id price side) e = on_order_book_update ticker_id bbo e

    unfoldable pub notify_all :
        Bbo → List Notice → TradeEngine Double → Outcome (TradeEngine Double)
    notify_all bbo [] e = ok e
    notify_all bbo (notice ∷ notices) e = notify bbo notice e >>= notify_all bbo notices

    -- The body of the second loop of `run`. A book makes its one call when it is done with its change.
    unfoldable pub handle_market_update :
        MeMarketUpdate → TradeEngine Double → Outcome (TradeEngine Double)
    unfolding notify_all
    handle_market_update u e = do
      assert (ltb u.ticker_id me_max_tickers)
      book ← on_market_update u (record (e.ticker_order_book u.ticker_id) { notices = [] })
      let quiet = record book { notices = [] }
      notify_all (get_bbo book) book.notices
          (record e { ticker_order_book = update e.ticker_order_book u.ticker_id quiet })

    -- A round of the loop of `run`
    unfoldable pub run_round :
        LfQueue MeClientResponse
        → LfQueue MeMarketUpdate
        → TradeEngine Double
        → Outcome (LfQueue MeClientResponse × LfQueue MeMarketUpdate × TradeEngine Double)
    run_round responses updates e = do
      (responses, e) ← drain on_order_update (responses.num_elements + 1) responses e
      (updates, e) ← drain handle_market_update (updates.num_elements + 1) updates e
      ok (responses, updates, e)
