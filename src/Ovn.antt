-- ===== src/Ovn.antt =====
-- pkg/ovn: the tools that query the OVN databases in a pod.
pub mod Types
pub mod Validate
pub mod Handlers
pub mod Args
pub mod Allowed
