-- ===== src/Trading/MarketOrderBook.antt =====
-- trading/strategy/market_order.h, market_order_book.h and market_order_book.cpp: the order book of one
-- instrument as a trading client rebuilds it from market data.
pub mod State
pub mod Levels
pub mod Orders
pub mod Updates
pub mod Clear
