-- ===== src/PingPong.antt =====
-- seminars/01-framework/ping-pong: impl_basic.py and impl_retry.py.
pub mod Basic
pub mod Retry
pub mod Pongs
