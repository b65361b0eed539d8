-- ===== src/MustGather.antt =====
-- pkg/must-gather: the client of the `omc` command, which reads must-gathers.
pub mod Omc
pub mod Path
pub mod OvsdbTool
pub mod Tools
pub mod Server
