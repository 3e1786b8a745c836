-- ===== src/Trading/MarketOrderBook/Clear.antt =====
-- The case `CLEAR` of `onMarketUpdate` in trading/strategy/market_order_book.cpp: Orders and Levels have its
-- two parts, Book the whole.
pub mod Book
pub mod Levels
pub mod Orders
