-- ===== src/Tests/Strategies.antt =====
-- Positions, the algorithms and the trade engine at small inputs. A `double` is an integer here, or NaN.
use trading_ecosystem.Prelude.{
  ℕ, ◌+◌, ◌≡◌, refl, inl, inr, Bool, true, false, not, Option, none, some, List, [], ◌∷◌, arith,
  ◌==◌, if◌then◌else◌, ok,
}
use trading_ecosystem.Prelude.Int.{ℤ, pos, negsuc, ◌+ℤ◌, ◌-ℤ◌, ◌*ℤ◌, ltb_ℤ, leb_ℤ, eqb_ℤ}
use trading_ecosystem.Common.Types.{Side, buy, sell}
use trading_ecosystem.Common.AlgoType
use trading_ecosystem.Common.MemPool.{block}
use trading_ecosystem.Common.LfQueue.{LfQueue}
use trading_ecosystem.Common.LfQueue.Fifo.{unread}
use trading_ecosystem.Common.LfQueue.Drain.{drain}
use trading_ecosystem.Exchange.Messages.{
  MeClientRequest, MeClientResponse, MeMarketUpdate, ClientResponseType, MarketUpdateType,
  ClientRequestType,
}
use trading_ecosystem.Trading.Doubles.{Doubles}
use trading_ecosystem.Trading.MarketOrderBook.State.{
  Bbo, MarketOrder, MarketOrdersAtPrice, MarketOrderBook,
}
use trading_ecosystem.Trading.PositionKeeper.{PositionInfo, position_info, add_fill}
use trading_ecosystem.Trading.PositionKeeper.Fills.{add_fills, add_fills-sums}
use trading_ecosystem.Trading.PositionKeeper.Averages.{IsOneSided, add_fill-IsOneSided}
use trading_ecosystem.Trading.FeatureEngine.{FeatureEngine}
use trading_ecosystem.Trading.RiskManager.{RiskInfo}
use trading_ecosystem.Trading.OrderManager.{OrderManager, order_manager, move_orders}
use trading_ecosystem.Trading.Algorithms.{TradeEngineCfg, maker_on_order_book_update}
use trading_ecosystem.Trading.Algorithms.Quotes.{IsPassive, maker_on_order_book_update-IsPassive}
use trading_ecosystem.Trading.TradeEngine.{TradeEngine, on_order_update}
use trading_ecosystem.Trading.TradeEngine.Responses.{IsUpdated, drain-IsUpdated}

-- An operation on two numbers, of which neither is NaN
abbrev both : (ℤ → ℤ → ℤ) → Option ℤ → Option ℤ → Option ℤ
both f none y = none
both f (some a) none = none
both f (some a) (some b) = some (f a b)

abbrev both_are : (ℤ → ℤ → Bool) → Bool → Option ℤ → Option ℤ → Bool
both_are f other none y = other
both_are f other (some a) none = other
both_are f other (some a) (some b) = f a b

abbrev doubles : Doubles (Option ℤ)
doubles = record {
  of_int = λ n. some n;
  add = both (λ a b. a +ℤ b);
  sub = both (λ a b. a -ℤ b);
  mul = both (λ a b. a *ℤ b);
  div = both (λ a b. a);
  less = both_are ltb_ℤ false;
  at_least = both_are (λ a b. leb_ℤ b a) false;
  differs = both_are (λ a b. not (eqb_ℤ a b)) true;
  half = some (pos 1);
  quiet_nan = none;
}

abbrev fill : Side → ℕ → MeClientResponse
fill side qty = record {
  kind = ClientResponseType.filled;
  client_id = 3;
  ticker_id = 2;
  client_order_id = 1;
  market_order_id = 9;
  side = side;
  price = pos 100;
  exec_qty = qty;
  leaves_qty = 0;
}

abbrev fills : List MeClientResponse
fills = fill buy 5 ∷ fill sell 8 ∷ fill buy 1 ∷ []

add_fills-sums_example :
    ((add_fills doubles fills (position_info doubles (λ i. none))).position ≡ negsuc 1)
    × ((add_fills doubles fills (position_info doubles (λ i. none))).volume ≡ 14)
add_fills-sums_example =
    add_fills-sums doubles (λ i. none) fills (inl refl, (inr refl, (inl refl, tt))) (omega arith)
      (omega arith)

-- A long position of five that was bought at 100
abbrev long_five : PositionInfo (Option ℤ)
long_five = record (position_info doubles (λ i. if i == 2 then some (pos 500) else some (pos 0))) {
  position = pos 5;
}

add_fill-IsOneSided_example : IsOneSided doubles (add_fill doubles (fill sell 8) long_five)
unfolding position_info
add_fill-IsOneSided_example =
    add_fill-IsOneSided doubles (fill sell 8) long_five (inr refl) (omega arith) (omega arith)
      (record { long = inr (omega arith); short = inl refl })

abbrev bbo : Bbo
bbo = record { bid_price = pos 100; ask_price = pos 102; bid_qty = 10; ask_qty = 30 }

abbrev cfg : ℕ → TradeEngineCfg (Option ℤ)
cfg i = record {
  clip = 4;
  threshold = some (pos 1);
  risk_cfg = record { max_order_size = 10; max_position = 20; max_loss = some (negsuc 50) };
}

abbrev risks : ℕ → RiskInfo (Option ℤ)
risks i = record { position = pos 0; total_pnl = some (pos 0); risk_cfg = (cfg i).risk_cfg }

abbrev features : FeatureEngine (Option ℤ)
features = record { mkt_price = some (pos 101); agg_trade_qty_ratio = some (pos 3) }

maker_on_order_book_update-IsPassive_example :
    (bid : ℤ) × (ask : ℤ) × IsPassive doubles 3 cfg risks bbo bid ask
    × (maker_on_order_book_update doubles 3 cfg risks 2 bbo features order_manager
        ≡ move_orders 3 doubles.less risks 2 bid ask 4 order_manager)
maker_on_order_book_update-IsPassive_example =
    maker_on_order_book_update-IsPassive doubles 3 cfg risks 2 bbo features order_manager
      (omega arith) refl refl

abbrev trade : MeMarketUpdate
trade = record {
  kind = MarketUpdateType.trade;
  order_id = 0;
  ticker_id = 2;
  side = buy;
  price = pos 102;
  qty = 30;
  priority = 0;
}

abbrev responses : LfQueue MeClientResponse
responses = record {
  size = 4;
  store = λ i. fill buy (5 + i);
  next_write_index = 2;
  next_read_index = 0;
  num_elements = 2;
}

abbrev no_request : MeClientRequest
no_request = record {
  kind = ClientRequestType.invalid;
  client_id = 0;
  ticker_id = 0;
  order_id = 0;
  side = Side.invalid;
  price = pos 0;
  qty = 0;
}

abbrev no_level : MarketOrdersAtPrice
no_level = record {
  side = Side.invalid;
  price = pos 0;
  first_mkt_order = none;
  prev_entry = none;
  next_entry = none;
}

abbrev no_order : MarketOrder
no_order = record {
  order_id = 0;
  side = Side.invalid;
  price = pos 0;
  qty = 0;
  priority = 0;
  prev_order = none;
  next_order = none;
}

abbrev empty_book : MarketOrderBook
empty_book = record {
  oid_to_order = λ _. none;
  orders_at_price_pool = record { size = 2; store = λ _. block no_level true; next_free_index = 0 };
  bids_by_price = none;
  asks_by_price = none;
  price_orders_at_price = λ _. none;
  order_pool = record { size = 2; store = λ _. block no_order true; next_free_index = 0 };
  bbo = bbo;
  notices = [];
}

abbrev engine : TradeEngine (Option ℤ)
engine = record {
  client_id = 3;
  algo_type = AlgoType.AlgoType.maker;
  ticker_cfg = cfg;
  ticker_order_book = λ i. empty_book;
  outgoing_ogw_requests = record {
    size = 4;
    store = λ i. no_request;
    next_write_index = 0;
    next_read_index = 0;
    num_elements = 0;
  };
  feature_engine = features;
  positions = λ i. position_info doubles (λ j. none);
  order_manager = order_manager;
}

drain-IsUpdated_example :
    (q' : LfQueue MeClientResponse) × (e' : TradeEngine (Option ℤ)) × (drain
        (on_order_update doubles)
        3
        responses
        engine
      ≡ ok (q', e'))
    × (unread q' ≡ [])
    × IsUpdated doubles (fill buy 5 ∷ fill buy 6 ∷ []) engine e'
drain-IsUpdated_example =
    drain-IsUpdated doubles responses engine
      (record { read_in = omega arith; fits = omega arith; write_at = refl })
      (omega arith, (omega arith, tt)) refl
