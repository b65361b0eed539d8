-- ===== src/Kernel/Params.antt =====
-- pkg/kernel/types/types.go, and the configuration of the server in pkg/kernel/mcp/mcp.go.
use ovn_kubernetes_mcp.Text.{Text}
use ovn_kubernetes_mcp.Utils.HeadTail.{HeadTailParams}
use ovn_kubernetes_mcp.Utils.Timeout.{TimeoutParams}

pub record CommonParams : Type 0 where
  pub node : Text
  pub namespace : Text
  pub head_tail : HeadTailParams
  pub timeout : TimeoutParams

pub record ListConntrackParams : Type 0 where
  pub common : CommonParams
  pub open common use *
  pub command : Text
  pub filter_parameters : Text

pub record ListIptablesParams : Type 0 where
  pub common : CommonParams
  pub open common use *
  pub table : Text
  pub command : Text
  pub filter_parameters : Text

pub record ListNftParams : Type 0 where
  pub common : CommonParams
  pub open common use *
  pub command : Text
  pub address_families : Text

pub record ListIpParams : Type 0 where
  pub common : CommonParams
  pub open common use *
  pub options : Text
  pub command : Text
  pub filter_parameters : Text

-- `Config` of the server: the image of the debug pod.
pub record Config : Type 0 where
  pub image : Text
