-- ===== src/Tests.antt =====
-- The components at small inputs.
mod Books
mod Queues
mod Servers
mod Feeds
mod Orders
mod MarketBooks
mod Channels
mod Strategies
