-- ===== src/Lib.antt =====
-- A verification library for the exchange and the trading client of this repository.
--
-- The exchange takes orders from clients over TCP, matches them, answers, and publishes market data
-- over multicast; a client reads market data and responses, and sends orders. Within a process the
-- components run in threads and talk through queues:
--
--   order server -> FIFO sequencer -> matching engine -> order book of each instrument
--   matching engine -> order server -> (TCP) order gateway -> trade engine
--   matching engine -> market data publisher -> snapshot synthesizer -> (multicast) consumer
--   trade engine -> order manager -> risk manager; order manager -> order gateway
--
-- Files and sources:
--   Prelude: shared names, tests on numbers, lists, counts, outcomes and integers. An operation that
--     can stop the process returns an `Outcome`: a failed ASSERT of common/macros.h, a null pointer
--     that is read, an index out of range, or a loop that is out of fuel.
--   Common/Types: common/types.h.
--   Common/MemPool: common/mem_pool.h. Pointers are indices of blocks.
--   Common/LfQueue: common/lf_queue.h, as a queue and as two interleaved threads; Drain has the loop
--     with which the program's threads read a queue, Writes what several writes do to it. Components
--     that write to a queue have it in their state: the ring with its slots and indices.
--   Common/Logger: common/logging.h. Format has an independent formatter, Flush the way to the file.
--   Common/AlgoType, Exchange/Names and Trading/Names: the names of the enumerations.
--   Common/TcpSocket: common/tcp_socket.*, with the loop that takes fixed-size messages out of a buffer.
--   Common/TcpServer: common/tcp_server.*, the lists of sockets that the server polls.
--   Exchange/Messages: the structs of exchange/order_server/client_request.h, client_response.h and
--     exchange/market_data/market_update.h.
--   Exchange/OrderBook: exchange/matcher/me_order.h and me_order_book.*. State is the book with its
--     two pools; Levels has addOrdersAtPrice and removeOrdersAtPrice, Orders has addOrder and
--     removeOrder, Matching has match, checkForMatch, add and cancel. Messages to the matching engine
--     are collected in the field `events`. Removal, Trades, Loop, Conservation and Cancel
--     hold the proofs; Fifo has the lists of the levels' orders, and Prices the sorted list of a
--     side's levels.
--   Common/Rings: circular doubly linked lists, as lists of distinct nodes with the links around them.
--   Exchange/FifoSequencer and Exchange/OrderServer: exchange/order_server/.
--   Exchange/MatchingEngine: exchange/matcher/matching_engine.h.
--   Exchange/MarketDataPublisher and Exchange/SnapshotSynthesizer: exchange/market_data/.
--     The publisher reads a slot again after it has given it back: its loop has, for each round, what
--     the thread of the matching engine writes in between.
--   Trading/MarketDataConsumer: trading/market_data/; Body says what a snapshot should hold.
--   Trading/OrderGateway: trading/order_gw/.
--   Trading/MarketOrderBook: trading/strategy/market_order.h and market_order_book.*, with State, Levels
--     and Orders as in the exchange, onMarketUpdate in Updates, and proofs on its case CLEAR in Clear.
--   Trading/RiskManager, Trading/OrderManager, Trading/PositionKeeper and Trading/FeatureEngine: the
--     files of these names in trading/strategy/.
--   Trading/Algorithms: trading/strategy/market_maker.h and liquidity_taker.h.
--   Trading/TradeEngine: trading/strategy/trade_engine.*, which calls these parts for every response and
--     every market update.
--   Tests: the components at small inputs.
--
-- Bounds and fuel. Quantities, identifiers and numbers are natural numbers. Counters that only grow
-- (the 64-bit market order id, priority and client order id) keep their wrap-around; quantities only
-- shrink; sequence numbers count the messages of one run and are unbounded here. Prices are integers.
-- Products and sums of prices and positions wrap at 64 and 32 bits (`wrap_ℤ` of Prelude/Int).
-- The matching loop has the size of the order pool plus 2 as fuel: every round but the last takes an
-- order out of the pool. The loops over a queue have one round more than there are messages, those that
-- arrive while the publisher's loop runs included. The
-- search of the memory pool passes each block once, and the search for the place of a price level, with
-- two rounds more than the pool has levels, each level.
--
-- Parameters: `std::sort` (a permutation in order); the type `double` with its operations (Trading/Doubles);
-- the texts that a stream prints for numbers; what the operating system reads from a socket and takes of
-- what is sent.
--
-- Not modelled: the calls of the operating system (sockets, epoll, multicast groups, threads, clocks and
-- files), the functions that format structs for the log, and the main programs, which only create
-- the components and wait.
pub mod Prelude
pub mod Common
pub mod Exchange
pub mod Trading
mod Tests
