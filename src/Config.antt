-- ===== src/Config.antt =====
-- engine/src/hopeit/app/config.py and engine/src/hopeit/server/config.py: configuration.
pub mod Defs
