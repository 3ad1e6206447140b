-- ===== src/Streams.antt =====
-- engine/src/hopeit/streams/__init__.py: the stream manager and its circuit breaker.
pub mod Breaker
