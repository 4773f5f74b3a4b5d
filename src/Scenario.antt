-- ===== src/Scenario.antt =====
-- The scenario planner: frontend/src/scenario/scenarioUtils.js and scenarioLaneUtils.js.
pub mod Undo
pub mod Bars
pub mod Segments
pub mod Dependencies
mod Tests
