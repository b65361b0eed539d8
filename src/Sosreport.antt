-- ===== src/Sosreport.antt =====
-- pkg/sosreport: the tools that read an extracted sosreport.
pub mod Reports
pub mod Commands
pub mod Output
pub mod Logs
