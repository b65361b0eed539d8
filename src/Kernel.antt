-- ===== src/Kernel.antt =====
-- pkg/kernel/mcp: the four tools that inspect the kernel of a node, over `runDebugNodeCommand`.
pub mod Params
pub mod Outputs
pub mod Runs
pub mod Report
pub mod ReportOf
pub mod Found
pub mod Calls
pub mod Util
pub mod Nft
pub mod Iptables
pub mod Conntrack
pub mod Ip
