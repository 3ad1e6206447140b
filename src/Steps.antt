-- ===== src/Steps.antt =====
-- engine/src/hopeit/server/steps.py: the steps of an event, which of them run in a stage of the
-- event, in what order they run on a payload, and how an event is split into stages.
pub mod Defs
pub mod Names
pub mod Effective
pub mod Next
pub mod Execute
pub mod Stages
mod Tests
