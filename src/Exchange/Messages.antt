-- ===== src/Exchange/Messages.antt =====
-- exchange/order_server/client_request.h, exchange/order_server/client_response.h and
-- exchange/market_data/market_update.h: what the components send to one another.
use trading_ecosystem.Prelude.{ℕ}
use trading_ecosystem.Prelude.Int.{ℤ}
use trading_ecosystem.Common.Types.{Side}

pub data ClientRequestType : Type 0 where
  invalid new cancel : ClientRequestType

pub data ClientResponseType : Type 0 where
  invalid accepted canceled filled cancel_rejected : ClientResponseType

pub data MarketUpdateType : Type 0 where
  invalid clear add modify cancel trade snapshot_start snapshot_end : MarketUpdateType

pub record MeClientRequest : Type 0 where
  pub kind : ClientRequestType
  pub client_id : ℕ
  pub ticker_id : ℕ
  pub order_id : ℕ
  pub side : Side
  pub price : ℤ
  pub qty : ℕ

-- The request with its sequence number, as a trading client sends it.
pub record OmClientRequest : Type 0 where
  pub seq_num : ℕ
  pub me_client_request : MeClientRequest

pub record MeClientResponse : Type 0 where
  pub kind : ClientResponseType
  pub client_id : ℕ
  pub ticker_id : ℕ
  pub client_order_id : ℕ
  pub market_order_id : ℕ
  pub side : Side
  pub price : ℤ
  pub exec_qty : ℕ
  pub leaves_qty : ℕ

pub record MeMarketUpdate : Type 0 where
  pub kind : MarketUpdateType
  pub order_id : ℕ
  pub ticker_id : ℕ
  pub side : Side
  pub price : ℤ
  pub qty : ℕ
  pub priority : ℕ

-- The update with its sequence number, as the market data publisher sends it.
pub record MdpMarketUpdate : Type 0 where
  pub seq_num : ℕ
  pub me_market_update : MeMarketUpdate

-- What an order book hands to its matching engine, in order.
pub data Event : Type 0 where
  response : MeClientResponse → Event
  update : MeMarketUpdate → Event
