-- ===== src/NetworkTools/Pwru.antt =====
-- pkg/network-tools/mcp/pwru.go.
pub mod Allowed
use ovn_kubernetes_mcp.Prelude.{◌∷◌, [], List, ℕ, Bool, if◌then◌else◌}
use ovn_kubernetes_mcp.Prelude.Int.{ℤ}
use ovn_kubernetes_mcp.Text.{Text, codes, text_eq}
use ovn_kubernetes_mcp.Text.Decimal.{itoa}
use ovn_kubernetes_mcp.Exec.{issue, Context, M, ◌>>=◌, ◌>>◌, ret, debug_node}
use ovn_kubernetes_mcp.Utils.Timeout.{TimeoutParams, with_timeout}
use ovn_kubernetes_mcp.Utils.CommandBuilder.{new_command, add_if_not_empty, build}
use ovn_kubernetes_mcp.NetworkTools.Validate.{
  Config, CommandResult, command_result, validate_packet_filter, validate_int_max, or_default,
}

-- `PwruParams` of pkg/network-tools/types/manifest.go.
pub record PwruParams : Type 0 where
  pub bpf_filter : Text
  pub node_name : Text
  pub node_pod_namespace : Text
  pub output_limit_lines : ℤ
  pub timeout : TimeoutParams

abbrev pub default_output_limit_lines : ℕ
default_output_limit_lines = 100

abbrev pub max_output_limit_lines : ℕ
max_output_limit_lines = 1000

unfoldable pub pwru_args : ℤ → Text → List Text
pwru_args output_limit_lines bpf_filter = build (
    add_if_not_empty
      (new_command (codes "pwru" ∷ codes "--output-limit-lines" ∷ itoa output_limit_lines ∷ []))
      bpf_filter (bpf_filter ∷ []))

unfoldable pub pwru : Config → ℕ → Context → PwruParams → M CommandResult
pwru cfg now parent inp = do
  let output_limit_lines = or_default inp.output_limit_lines default_output_limit_lines
  ret (validate_int_max output_limit_lines max_output_limit_lines (codes "output_limit_lines") [])
  ret (validate_packet_filter inp.bpf_filter)
  reply ← issue (
      debug_node (record {
        ctx = with_timeout now inp.timeout parent;
        namespace = inp.node_pod_namespace;
        node = inp.node_name;
        image = cfg.pwru_image;
        command = pwru_args output_limit_lines inp.bpf_filter;
        host_path = codes "/sys/kernel/debug";
        mount_path = codes "/sys/kernel/debug";
        timeout = 0;
      }))
  ret (command_result reply)
