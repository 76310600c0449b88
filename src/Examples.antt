-- ===== src/Examples.antt =====
-- Concrete runs of the modelled code, by the part of the program.
pub mod Wire
pub mod Stored
pub mod Plugins
pub mod Docker
pub mod Executor
pub mod Agent
pub mod Converter
pub mod Report
pub mod Files
