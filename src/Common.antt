-- ===== src/Common.antt =====
-- The utilities of common/: the object pool, the ring queue between threads, the shared types.
pub mod Types
pub mod MemPool
pub mod LfQueue
pub mod Logger
pub mod AlgoType
pub mod TcpSocket
pub mod TcpServer
pub mod Rings
