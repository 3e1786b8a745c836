-- ===== src/Exchange/Names.antt =====
-- The names of the enumerations of exchange/order_server/client_request.h,
-- exchange/order_server/client_response.h and exchange/market_data/market_update.h.
use Prim.Native.String.{String}
use trading_ecosystem.Exchange.Messages.{ClientRequestType, ClientResponseType, MarketUpdateType}

unfoldable pub client_request_type_to_string : ClientRequestType → String
client_request_type_to_string ClientRequestType.new = "NEW"
client_request_type_to_string ClientRequestType.cancel = "CANCEL"
client_request_type_to_string ClientRequestType.invalid = "INVALID"

unfoldable pub client_response_type_to_string : ClientResponseType → String
client_response_type_to_string ClientResponseType.accepted = "ACCEPTED"
client_response_type_to_string ClientResponseType.canceled = "CANCELED"
client_response_type_to_string ClientResponseType.filled = "FILLED"
client_response_type_to_string ClientResponseType.cancel_rejected = "CANCEL_REJECTED"
client_response_type_to_string ClientResponseType.invalid = "INVALID"

unfoldable pub market_update_type_to_string : MarketUpdateType → String
market_update_type_to_string MarketUpdateType.clear = "CLEAR"
market_update_type_to_string MarketUpdateType.add = "ADD"
market_update_type_to_string MarketUpdateType.modify = "MODIFY"
market_update_type_to_string MarketUpdateType.cancel = "CANCEL"
market_update_type_to_string MarketUpdateType.trade = "TRADE"
market_update_type_to_string MarketUpdateType.snapshot_start = "SNAPSHOT_START"
market_update_type_to_string MarketUpdateType.snapshot_end = "SNAPSHOT_END"
market_update_type_to_string MarketUpdateType.invalid = "INVALID"
