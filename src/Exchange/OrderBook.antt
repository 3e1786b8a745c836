-- ===== src/Exchange/OrderBook.antt =====
-- exchange/matcher/me_order.h, me_order_book.h and me_order_book.cpp: the limit order book of one
-- instrument.
pub mod State
pub mod Levels
pub mod Orders
pub mod Matching
pub mod Removal
pub mod Trades
pub mod Loop
pub mod Conservation
pub mod Cancel
pub mod Fifo
pub mod Prices
