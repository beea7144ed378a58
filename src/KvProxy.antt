-- ===== src/KvProxy.antt =====
-- seminars/08-balancing-sharding/kv: the proxy of a key-value store, and the nodes behind it.
pub mod Http
pub mod Raid3
pub mod ShardingProxy
pub mod ReplicatingProxy
pub mod QuorumProxy
pub mod Raid3Proxy
pub mod Storage
pub mod Cluster
pub mod App
