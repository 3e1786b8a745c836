-- ===== src/Exchange.antt =====
-- The exchange: messages, the limit order book, the matching engine, the order server, market data.
pub mod Messages
pub mod OrderBook
pub mod FifoSequencer
pub mod OrderServer
pub mod MatchingEngine
pub mod MarketDataPublisher
pub mod SnapshotSynthesizer
pub mod Names
