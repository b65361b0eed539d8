-- ===== src/Tests/RunTests.antt =====
-- Complete runs on concrete answers.
use ovn_kubernetes_mcp.Kernel.Conntrack.Reports.{get_conntrack-IsConntrackReport, IsConntrackReport}
use ovn_kubernetes_mcp.Utils.Timeout.{with_timeout}
use ovn_kubernetes_mcp.Prelude.{
  ◌++◌, ◌≡◌, refl, ok, [], none, some, false, true, if◌then◌else◌, errorf,
}
use ovn_kubernetes_mcp.Text.{
  fields, join, after_digits, Text, codes, elem, split, contains, trim_space, is_atoi,
}
use ovn_kubernetes_mcp.Exec.{wrap_all, attempt, ◌>>=◌, Call, Reply, command_of, run}
use ovn_kubernetes_mcp.Exec.Runs.{IsHealthy}
use ovn_kubernetes_mcp.Utils.HeadTail.{head_lines, apply}
use ovn_kubernetes_mcp.Utils.Lines.{newline, strip_empty_lines}
use ovn_kubernetes_mcp.Utils.Validate.{validate_safe_string, default}
use ovn_kubernetes_mcp.Kernel.Params.{ListNftParams, ListConntrackParams}
use ovn_kubernetes_mcp.Kernel.Util.{
  conntrack_summary_pattern, split_conntrack_summary, execute_command, utility_exists, render,
  filter_warnings,
}
use ovn_kubernetes_mcp.Kernel.Nft.{get_nft, validate_nft_command, validate_nft_address_family}
use ovn_kubernetes_mcp.Kernel.Conntrack.{
  conntrack_summary, get_conntrack_using_cli, conntrack_args, get_conntrack,
  validate_conntrack_command,
}
use ovn_kubernetes_mcp.Kernel.Runs.{IsNftReport, get_nft-completes, get_conntrack-reads_file}
use ovn_kubernetes_mcp.Pods.Runs.{kept}
use ovn_kubernetes_mcp.Ovs.Types.{OfctlParams}
use ovn_kubernetes_mcp.Ovs.Validate.{validate_ofctl_action, validate_bridge_name}
use ovn_kubernetes_mcp.Ovs.Flows.{ofctl}
use ovn_kubernetes_mcp.Ovs.Flows.Completes.{ofctl-completes}
use ovn_kubernetes_mcp.Tests.Samples.{
  thirty_seconds, background, ten_lines, kernel_config, on_worker, literal, priority, namespace,
  pod,
}

-- A cluster that answers every command with two lines.
abbrev two_line_cluster : Call → Reply
two_line_cluster c = record {
  stdout = codes "priority=1\n\nWarning: x\n";
  stderr = [];
  error = none;
}

two_line_cluster-IsHealthy : IsHealthy two_line_cluster
two_line_cluster-IsHealthy c = (refl, refl)

abbrev inet_sets : ListNftParams
inet_sets = record {
  common = on_worker;
  command = codes "list sets";
  address_families = codes "inet";
}

inet_sets_command : validate_nft_command inet_sets.command ≡ ok tt
unfolding validate_nft_command is_atoi trim_space
inet_sets_command = refl

inet_sets_safe :
    validate_safe_string inet_sets.address_families (codes "address families") true default ≡ ok tt
unfolding validate_safe_string
inet_sets_safe = refl

inet_sets_family : validate_nft_address_family inet_sets.address_families ≡ ok tt
unfolding validate_nft_address_family is_atoi trim_space
inet_sets_family = refl

get_nft-completes_example :
    (out : Text) × (run two_line_cluster (get_nft kernel_config 7 background inet_sets) ≡ ok out)
    × IsNftReport kernel_config
        (with_timeout 7 thirty_seconds background)
        inet_sets
        two_line_cluster
        out
get_nft-completes_example =
    get_nft-completes kernel_config 7 background inet_sets two_line_cluster inet_sets_command
      inet_sets_safe inet_sets_family two_line_cluster-IsHealthy

-- An image without the conntrack utility.
abbrev no_conntrack : Call → Reply
no_conntrack c =
    if elem (codes "-V") (command_of c)
    then record { stdout = []; stderr = []; error = some (errorf "not found" []) }
    else record { stdout = codes "ipv4 2 tcp 6\n"; stderr = []; error = none }

abbrev dump : ListConntrackParams
dump = record { common = on_worker; command = codes "--dump"; filter_parameters = [] }

dump_command : validate_conntrack_command dump.command false ≡ ok tt
unfolding validate_conntrack_command is_atoi trim_space
dump_command = refl

dump_safe :
    validate_safe_string dump.filter_parameters (codes "filter parameters") true default ≡ ok tt
unfolding validate_safe_string
dump_safe = refl

-- An image with the conntrack utility, which says on its standard error how much it shows.
abbrev shown_summary : Text
shown_summary = codes "conntrack v1.4.7 (conntrack-tools): 1 flow entries have been shown."

abbrev with_conntrack : Call → Reply
with_conntrack c =
    if elem (codes "-V") (command_of c)
    then record { stdout = codes "conntrack v1.4.7"; stderr = []; error = none }
    else record { stdout = codes "tcp 6\n\n"; stderr = shown_summary ++ codes "\n"; error = none }

abbrev entry_and_summary : Text
entry_and_summary = codes "tcp 6" ++ (codes "\n -- conntrack summary --\n" ++ shown_summary)

dump_runs :
    run with_conntrack (get_conntrack kernel_config 7 background dump) ≡ ok entry_and_summary
unfolding run get_conntrack ◌>>=◌ attempt wrap_all utility_exists execute_command filter_warnings
    contains trim_space validate_conntrack_command is_atoi validate_safe_string conntrack_args
    get_conntrack_using_cli conntrack_summary split_conntrack_summary conntrack_summary_pattern
    after_digits render strip_empty_lines apply head_lines split join fields
dump_runs = refl

get_conntrack-IsConntrackReport_example :
    IsConntrackReport kernel_config
      (with_timeout 7 thirty_seconds background)
      dump
      with_conntrack
      entry_and_summary
get_conntrack-IsConntrackReport_example =
    get_conntrack-IsConntrackReport kernel_config 7 background dump with_conntrack entry_and_summary
      dump_runs

get_conntrack-reads_file_example :
    run no_conntrack (get_conntrack kernel_config 7 background dump)
    ≡ ok (render ten_lines (filter_warnings (codes "ipv4 2 tcp 6\n")))
get_conntrack-reads_file_example =
    get_conntrack-reads_file kernel_config 7 background dump no_conntrack (errorf "not found" [])
      refl refl refl dump_command dump_safe

abbrev br_int_flows : OfctlParams
br_int_flows = record {
  namespace = namespace;
  name = pod;
  action = codes "dump-flows";
  bridge = codes "br-int";
  pattern = priority;
  head_tail = ten_lines;
}

br_int_action : validate_ofctl_action br_int_flows.action ≡ ok tt
unfolding validate_ofctl_action
br_int_action = refl

br_int_bridge : validate_bridge_name br_int_flows.bridge ≡ ok tt
unfolding validate_bridge_name
br_int_bridge = refl

ofctl-completes_example :
    run two_line_cluster (ofctl literal background br_int_flows)
    ≡ ok (record {
      bridge = codes "br-int";
      flows =
          apply ten_lines
            (kept priority
              (λ line. contains line (codes "priority"))
              (strip_empty_lines (split (codes "priority=1\n\nWarning: x\n") newline)))
            100;
    })
ofctl-completes_example =
    ofctl-completes literal background br_int_flows two_line_cluster
      (λ line. contains line (codes "priority")) br_int_action br_int_bridge refl
      two_line_cluster-IsHealthy
