-- ===== src/Kubernetes.antt =====
-- pkg/kubernetes/client: the debug pod through which commands run on a node.
pub mod Api
pub mod DebugNode
pub mod Client
pub mod Output
pub mod Tools
