-- ===== src/Examples.antt =====
-- The components at concrete inputs.
pub mod Ciphers
pub mod Streams
pub mod AcceptThreads
pub mod Addresses
pub mod ServerLists
pub mod Threads
pub mod Pools
pub mod Updates
pub mod Files
pub mod Lifetimes
pub mod Clocks
pub mod Admins
pub mod Clients
pub mod Configs
pub mod SpinLocks
pub mod Links
