-- ===== src/Utils.antt =====
-- pkg/utils: the helpers that all tool packages share, one module for each of its files.
pub mod Lines
pub mod Validate
pub mod HeadTail
pub mod Pattern
pub mod Timeout
pub mod CommandBuilder
pub mod OvnDb
