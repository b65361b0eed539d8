-- ===== src/Ovs/Vsctl.antt =====
-- `Vsctl` of pkg/ovs/mcp/mcp.go and the subcommands that it dispatches to. The result that accompanies
-- an error is left out.
pub mod Allowed
use ovn_kubernetes_mcp.Prelude.{List, [], ◌∷◌, if◌then◌else◌, errorf}
use ovn_kubernetes_mcp.Text.{Text, codes, text_eq, join}
use ovn_kubernetes_mcp.Exec.{Context, M, ◌>>=◌, ◌>>◌, ret, done, fail}
use ovn_kubernetes_mcp.Utils.HeadTail.{HeadTailParams, apply}
use ovn_kubernetes_mcp.Pods.{pod_lines}
use ovn_kubernetes_mcp.Utils.Lines.{newline}
use ovn_kubernetes_mcp.Ovs.Types.{
  VsctlParams, VsctlResult, vsctl_show, vsctl_list_br, vsctl_list_ports, vsctl_list_ifaces,
}
use ovn_kubernetes_mcp.Ovs.Validate.{default_max_lines, validate_bridge_name, validate_vsctl_action}

unfoldable pub list_bridges : Context → Text → Text → M (List Text)
list_bridges ctx namespace name =
    pod_lines ctx namespace name (codes "ovs-vsctl" ∷ codes "list-br" ∷ [])
      "failed to retrieve ovs bridge from pod %s/%s: %w"
      "failed to retrieve ovs bridge from pod %s/%s: %s" (namespace ∷ name ∷ [])

unfoldable pub show : Context → Text → Text → HeadTailParams → M Text
show ctx namespace name head_tail = do
  lines ←
      pod_lines ctx namespace name (codes "ovs-vsctl" ∷ codes "show" ∷ [])
        "failed to retrieve ovs configuration from pod %s/%s: %w"
        "failed to retrieve ovs configuration from pod %s/%s: %s" (namespace ∷ name ∷ [])
  done (join (apply head_tail lines default_max_lines) newline)

unfoldable pub list_ports : Context → Text → Text → Text → M (List Text)
list_ports ctx namespace name bridge = do
  ret (validate_bridge_name bridge)
  pod_lines ctx namespace name (codes "ovs-vsctl" ∷ codes "list-ports" ∷ bridge ∷ [])
      "failed to retrieve ports for bridge %s from pod %s/%s: %w"
      "failed to retrieve ports for bridge %s from pod %s/%s: %s" (bridge ∷ namespace ∷ name ∷ [])

unfoldable pub list_interfaces : Context → Text → Text → Text → M (List Text)
list_interfaces ctx namespace name bridge = do
  ret (validate_bridge_name bridge)
  pod_lines ctx namespace name (codes "ovs-vsctl" ∷ codes "list-ifaces" ∷ bridge ∷ [])
      "failed to retrieve interfaces for bridge %s from pod %s/%s: %w"
      "failed to retrieve interfaces for bridge %s from pod %s/%s: %s"
      (bridge ∷ namespace ∷ name ∷ [])

abbrev pub no_vsctl_result : VsctlResult
no_vsctl_result = record { output = []; bridges = []; ports = []; interfaces = [] }

-- The switch of `Vsctl`.
unfoldable pub run_vsctl : Context → VsctlParams → M VsctlResult
run_vsctl ctx inp =
    if text_eq inp.action vsctl_show
    then (do
      output ← show ctx inp.namespace inp.name inp.head_tail
      done (record no_vsctl_result { output = output }))
    else if text_eq inp.action vsctl_list_br
    then (do
      bridges ← list_bridges ctx inp.namespace inp.name
      done (record no_vsctl_result { bridges = bridges }))
    else if text_eq inp.action vsctl_list_ports
    then (do
      ports ← list_ports ctx inp.namespace inp.name inp.bridge
      done (record no_vsctl_result { ports = ports }))
    else if text_eq inp.action vsctl_list_ifaces
    then (do
      ifaces ← list_interfaces ctx inp.namespace inp.name inp.bridge
      done (record no_vsctl_result { interfaces = ifaces }))
    else fail (
        errorf
          "invalid action %q: must be one of \"show\", \"list-br\", \"list-ports\", \"list-ifaces\""
          (inp.action ∷ []))

unfoldable pub vsctl : Context → VsctlParams → M VsctlResult
vsctl ctx inp = do ret (validate_vsctl_action inp.action); run_vsctl ctx inp
