-- ===== src/Trading.antt =====
-- The trading client: market data, the order gateway, order and risk management.
pub mod MarketDataConsumer
pub mod OrderGateway
pub mod RiskManager
pub mod OrderManager
pub mod MarketOrderBook
pub mod Names
pub mod Doubles
pub mod PositionKeeper
pub mod FeatureEngine
pub mod Algorithms
pub mod TradeEngine
