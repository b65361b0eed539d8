-- ===== src/NetworkTools/Tcpdump.antt =====
-- pkg/network-tools/mcp/tcpdump.go.
pub mod Allowed
use ovn_kubernetes_mcp.Prelude.{
  reject_if, err, ◌&&◌, not, errorf, ◌||◌, ◌∷◌, [], is_empty, Result, ℕ, List, Bool, if◌then◌else◌,
}
use ovn_kubernetes_mcp.Prelude.Int.{ℤ}
use ovn_kubernetes_mcp.Text.{Text, codes, text_eq}
use ovn_kubernetes_mcp.Text.Decimal.{itoa}
use ovn_kubernetes_mcp.Exec.{issue, Context, M, ◌>>=◌, ◌>>◌, ret, fail, debug_node, pod_exec}
use ovn_kubernetes_mcp.Utils.Timeout.{TimeoutParams, with_timeout}
use ovn_kubernetes_mcp.Utils.CommandBuilder.{new_command, add_if_not_empty, build}
use ovn_kubernetes_mcp.NetworkTools.Validate.{
  Config, CommandResult, command_result, validate_interface, validate_packet_filter,
  validate_int_max, or_default,
}

-- `TcpdumpParams` of pkg/network-tools/types/manifest.go.
pub record TcpdumpParams : Type 0 where
  pub bpf_filter : Text
  pub target_type : Text
  pub name : Text
  pub namespace : Text
  pub container_name : Text
  pub interface : Text
  pub packet_count : ℤ
  pub snaplen : ℤ
  pub timeout : TimeoutParams

abbrev pub default_packet_count : ℕ
default_packet_count = 100

abbrev pub max_packet_count : ℕ
max_packet_count = 1000

abbrev pub default_snaplen : ℕ
default_snaplen = 96

abbrev pub max_snaplen : ℕ
max_snaplen = 1500

-- The argument vector that `Tcpdump` builds.
unfoldable pub tcpdump_args : ℤ → ℤ → Text → Text → List Text
tcpdump_args snaplen packet_count interface bpf_filter =
    let cmd = new_command (
      codes "tcpdump"
      ∷ codes "-n"
      ∷ codes "-v"
      ∷ codes "-s"
      ∷ itoa snaplen
      ∷ codes "-c"
      ∷ itoa packet_count
      ∷ []) in
    let on_interface = add_if_not_empty cmd interface (codes "-i" ∷ interface ∷ []) in
    build (add_if_not_empty on_interface bpf_filter (bpf_filter ∷ []))

-- The guards on the target.
unfoldable pub check_target : TcpdumpParams → Result (Unit {0})
check_target inp =
    if is_empty inp.target_type
      || (not (text_eq inp.target_type (codes "node"))
          && not (text_eq inp.target_type (codes "pod")))
    then err (errorf "target_type is required and must be 'node' or 'pod'" [])
    else if is_empty inp.name
    then err (errorf "name is required when target_type is '%s'" (inp.target_type ∷ []))
    else reject_if (text_eq inp.target_type (codes "pod") && is_empty inp.namespace)
        (errorf "namespace is required when target_type is 'pod'" [])

-- The switch on the target at the end.
unfoldable pub run_tcpdump : Config → Context → TcpdumpParams → List Text → M CommandResult
run_tcpdump cfg ctx inp command =
    if text_eq inp.target_type (codes "node")
    then (do
      reply ← issue (
          debug_node (record {
            ctx = ctx;
            namespace = inp.namespace;
            node = inp.name;
            image = cfg.tcpdump_image;
            command = command;
            host_path = [];
            mount_path = [];
            timeout = 0;
          }))
      ret (command_result reply))
    else if text_eq inp.target_type (codes "pod")
    then (do
      reply ← issue (
          pod_exec (record {
            ctx = ctx;
            namespace = inp.namespace;
            name = inp.name;
            container = inp.container_name;
            command = command;
          }))
      ret (command_result reply))
    else fail (errorf "invalid target_type: %s (must be 'node' or 'pod')" (inp.target_type ∷ []))

unfoldable pub tcpdump : Config → ℕ → Context → TcpdumpParams → M CommandResult
tcpdump cfg now parent inp = do
  ret (check_target inp)
  ret (validate_interface inp.interface)
  ret (validate_packet_filter inp.bpf_filter)
  let packet_count = or_default inp.packet_count default_packet_count
  ret (validate_int_max packet_count max_packet_count (codes "packet_count") [])
  let snaplen = or_default inp.snaplen default_snaplen
  ret (validate_int_max snaplen max_snaplen (codes "snaplen") (codes "bytes"))
  run_tcpdump cfg (with_timeout now inp.timeout parent) inp
      (tcpdump_args snaplen packet_count inp.interface inp.bpf_filter)
