-- ===== src/Planning.antt =====
-- The planning view's selection: which teams and which tasks are chosen, and what is stored.
pub mod Teams
pub mod State
pub mod Selection
