-- ===== src/Live.antt =====
-- The live executor (src/live.rs): its token bucket, the conversions of money, the failover of the RPC
-- client, the landing of bundles, the way from an order to a fill, the clients over HTTP, and signing.
pub mod TokenBucket
pub mod Money
pub mod Rpc
pub mod Landing
pub mod Run
pub mod Executor
pub mod Simulated
pub mod Reconciled
pub mod Fields
pub mod Replies
pub mod Requests
pub mod Upstream
pub mod Await
pub mod Signing
pub mod Arming
pub mod Armed
pub mod Ends
pub mod Answers
pub mod Orders
pub mod Landed
