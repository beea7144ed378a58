-- ===== src/Sharding.antt =====
-- homework/07-kv-sharding/solution.py: the store of keys over consistent hashing.
pub mod Deque
pub mod KeyStore
pub mod Node
