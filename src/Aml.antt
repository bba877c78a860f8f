-- ===== src/Aml.antt =====
-- crates/nanochrono-core/src/aml.rs: the reader of ACPI bytecode.
pub mod Op
pub mod Names
pub mod Cursor
pub mod Ids
pub mod Resources
pub mod Data
pub mod Skip
pub mod Statements
pub mod Devices
pub mod Walk
pub mod Members
pub mod Interpreter
pub mod Methods
pub mod Buffers
pub mod Touchpad
mod Runs
