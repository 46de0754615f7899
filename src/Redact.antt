-- ===== src/Redact.antt =====
-- src/redact.rs: masking secrets before text leaves the machine. `Known` is layer 1 (token
-- formats), `Assign` layer 2 (`key=value`), `Redactor` the values of the environment and the whole.
pub mod Known
pub mod Masked
pub mod Assign
pub mod Layers
pub mod Redactor
pub mod Tests
