-- ===== src/Middleware.antt =====
-- pkg/middleware: what stands between the MCP SDK and the tool handlers.
pub mod Protocol
pub mod ToolFilter
pub mod ToolTimeout
pub mod Laws
