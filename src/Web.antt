-- ===== src/Web.antt =====
-- engine/src/hopeit/server/web.py and engine/src/hopeit/toolkit/auth.py: requests and who may make
-- them.
pub mod Keys
pub mod Authorization
pub mod Handlers
pub mod Routes
mod Tests
