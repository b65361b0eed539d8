-- ===== src/Ovs.antt =====
-- pkg/ovs: the tools that inspect Open vSwitch in a pod.
pub mod Types
pub mod Validate
pub mod Vsctl
pub mod Flows
