-- ===== src/Tests.antt =====
-- Runs of the model on concrete inputs.
pub mod Tables
pub mod Tokens
pub mod Data
pub mod Building
pub mod Programs
pub mod Strings
pub mod Machine
pub mod Links
pub mod Scripts
