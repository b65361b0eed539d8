-- ===== src/Tests/Samples.antt =====
-- Sample requests.
use ovn_kubernetes_mcp.Prelude.{none, false, ok}
use ovn_kubernetes_mcp.Prelude.Int.{pos}
use ovn_kubernetes_mcp.Text.{Text, codes, contains}
use ovn_kubernetes_mcp.Exec.{Context}
use ovn_kubernetes_mcp.Utils.HeadTail.{HeadTailParams}
use ovn_kubernetes_mcp.Utils.Pattern.{PatternParams, Regexp}
use ovn_kubernetes_mcp.Utils.Timeout.{TimeoutParams}
use ovn_kubernetes_mcp.Kernel.Params.{Config, CommonParams}

abbrev pub background : Context
background = record { deadline = none }

abbrev pub ten_lines : HeadTailParams
ten_lines = record { head = pos 10; tail = pos 0; apply_tail_first = false }

abbrev pub thirty_seconds : TimeoutParams
thirty_seconds = record { timeout_seconds = 30 }

abbrev pub kernel_config : Config
kernel_config = record { image = codes "netshoot" }

abbrev pub on_worker : CommonParams
on_worker = record {
  node = codes "worker-0";
  namespace = codes "default";
  head_tail = ten_lines;
  timeout = thirty_seconds;
}

-- A compiler that takes a pattern as a literal to search for.
abbrev pub literal : Regexp
literal p = ok (λ line. contains line p)

abbrev pub priority : PatternParams
priority = record { pattern = codes "priority" }

abbrev pub namespace : Text
namespace = codes "ovn-kubernetes"

abbrev pub pod : Text
pod = codes "ovnkube-node-abcde"
