-- ===== src/Client.antt =====
-- plugins/clients/apps-client/src/hopeit/apps_client/__init__.py: calls of events of other apps.
pub mod Balancer
pub mod Responses
pub mod Tokens
pub mod Call
mod Tests
