-- ===== src/Tools.antt =====
-- The tool server of src/dealership_agent/tools.
pub mod Identity
pub mod Session
pub mod Server
pub mod Public
