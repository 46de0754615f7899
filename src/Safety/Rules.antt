-- ===== src/Safety/Rules.antt =====
-- `classify_command` of src/safety.rs: the calls of `bump` that it makes for the words of a command,
-- in their order. The arms of its `match` are in the children.
pub mod Payload
pub mod System
pub mod Git
pub mod Infra
pub mod Dev
pub mod Unknown
