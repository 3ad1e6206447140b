-- ===== src/Engine.antt =====
-- engine/src/hopeit/server/engine.py: events that are executed, and streams that are read and
-- written.
pub mod Publish
pub mod Reading
pub mod Lifecycle
pub mod Effective
pub mod Processing
mod Tests
