-- ===== src/Tests/SosreportTests.antt =====
-- The tools for sosreports on concrete requests.
use ovn_kubernetes_mcp.Prelude.{
  ◌≡◌, ◌↔◌, ◌⊎◌, refl, Bool, true, [], ◌∷◌, ◌++◌, none, keep, take, length, Result, ok,
}
use ovn_kubernetes_mcp.Prelude.Int.{pos}
use ovn_kubernetes_mcp.Text.{Text, codes, contains}
use ovn_kubernetes_mcp.Text.Paths.{base}
use ovn_kubernetes_mcp.Files.{
  Request, Answer, found, eof, stat, read_dir, create_temp, remove, remove_all, open_file, gunzip,
  untar, mkdir_all, create_file, copy_entry, read_file, read_all, run_command, run,
}
use ovn_kubernetes_mcp.Files.Laws.{Ensures}
use ovn_kubernetes_mcp.Utils.Pattern.{pattern_test}
use ovn_kubernetes_mcp.Sosreport.Reports.{Manifest}
use ovn_kubernetes_mcp.Sosreport.Commands.{search_commands}
use ovn_kubernetes_mcp.Sosreport.Commands.Laws.{hits, all_commands, search_commands_finds}
use ovn_kubernetes_mcp.Sosreport.Output.{get_command_output}
use ovn_kubernetes_mcp.Sosreport.Output.Below.{
  ReadsBelow, Always, IsOutput, get_command_output-IsOutput,
}
use ovn_kubernetes_mcp.Sosreport.Logs.{matches_container_log_file}
use ovn_kubernetes_mcp.Sosreport.Logs.Names.{IsLogName, matches_container_log_file_iff}
use ovn_kubernetes_mcp.Tests.Samples.{ten_lines, literal, priority}
use ovn_kubernetes_mcp.Sosreport.Logs.{get_pod_logs}
use ovn_kubernetes_mcp.Sosreport.Logs.Reads.{ReadsLog, get_pod_logs-ReadsLog}

abbrev sosreport : Text
sosreport = codes "/data/sosreport"

abbrev quoted : Text → Text
quoted t = codes "\"" ++ t ++ codes "\""

get_command_output-IsOutput_example :
    Ensures Always
      (ReadsBelow sosreport)
      (IsOutput literal quoted sosreport
        (codes "sos_commands/openvswitch/dump-flows")
        priority
        ten_lines)
      (get_command_output literal quoted sosreport
        (codes "sos_commands/openvswitch/dump-flows")
        priority
        ten_lines)
get_command_output-IsOutput_example =
    get_command_output-IsOutput literal quoted sosreport
      (codes "sos_commands/openvswitch/dump-flows") priority ten_lines

abbrev manifest : Manifest
manifest =
    (
      codes "openvswitch",
      record {
        commands =
            record { exec = codes "ovs-ofctl dump-flows"; filepath = codes "sos_commands/priority" }
            ∷ record { exec = codes "ovs-vsctl show"; filepath = codes "sos_commands/show" }
            ∷ [];
        files = [];
      },
    )
    ∷ []

abbrev read_manifest : Text → Result Manifest
read_manifest t = ok manifest

abbrev disk : (r : Request) → Answer r
disk (stat path) = found true
disk (read_dir path) = ok []
disk (create_temp directory pattern) = ok directory
disk (remove path) = ok tt
disk (remove_all path) = ok tt
disk (open_file path) = ok tt
disk (gunzip path) = ok tt
disk (untar path) = ok eof
disk (mkdir_all path) = ok tt
disk (create_file path) = ok tt
disk (copy_entry path) = ok tt
disk (read_file path) = ok (codes "{}")
disk (read_all path) = record { text = codes "line"; failure = none }
disk (run_command ctx command args) = record { output = []; error = none }

abbrev has_priority : Text → Bool
has_priority line = contains line (codes "priority")

compiles : pattern_test literal priority ≡ ok has_priority
unfolding pattern_test
compiles = refl

search_commands_finds_example :
    run disk (search_commands read_manifest literal sosreport priority (pos 5)) ≡ (
      let hit = take 5 (keep (hits has_priority) (all_commands manifest)) in
      ok (record { matches = hit; total = length hit }))
search_commands_finds_example =
    search_commands_finds disk read_manifest literal sosreport priority (pos 5) (codes "{}")
      manifest has_priority refl refl refl compiles

abbrev log_file : Text
log_file = codes "ovnkube-node-a_ovn-kubernetes_northd-0f3a.log"

abbrev log_path : Text
log_path = codes "var/log/containers/" ++ log_file ++ codes ".gz"

matches_container_log_file_iff_example :
    (matches_container_log_file log_path
        (codes "ovn-kubernetes")
        (codes "ovnkube-node-a")
        (codes "northd")
      ≡ true)
    ↔ ((file : Text) × ((base log_path ≡ file) ⊎ (base log_path ≡ file ++ codes ".gz"))
        × IsLogName (codes "ovn-kubernetes") (codes "ovnkube-node-a") (codes "northd") file)
matches_container_log_file_iff_example =
    matches_container_log_file_iff log_path (codes "ovn-kubernetes") (codes "ovnkube-node-a")
      (codes "northd")

get_pod_logs-ReadsLog_example :
    Ensures Always
      (ReadsLog read_manifest sosreport
        (codes "ovn-kubernetes")
        (codes "ovnkube-node-a")
        (codes "northd"))
      (λ _. Unit)
      (get_pod_logs literal quoted
        (codes "ovn-kubernetes")
        (codes "ovnkube-node-a")
        (codes "northd")
        priority
        ten_lines
        read_manifest
        sosreport)
get_pod_logs-ReadsLog_example =
    get_pod_logs-ReadsLog read_manifest sosreport (codes "ovn-kubernetes") (codes "ovnkube-node-a")
      (codes "northd") literal quoted priority ten_lines
