-- ===== src/NetworkTools.antt =====
-- pkg/network-tools/mcp: packet capture and packet tracing.
pub mod Validate
pub mod Tcpdump
pub mod Pwru
