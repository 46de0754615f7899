-- ===== src/Safety.antt =====
-- src/safety.rs: how much can a command hurt?
pub mod Risk
pub mod Command
pub mod Rules
pub mod Classify
pub mod Assess
