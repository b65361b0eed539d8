-- ===== src/Tests/MustGatherTests.antt =====
-- The tools for must-gathers on concrete requests.
use ovn_kubernetes_mcp.Prelude.{
  ◌≡◌, ◌↔◌, refl, true, false, List, [], ◌∷◌, map, none, some, Any, Result, ok,
}
use ovn_kubernetes_mcp.Text.{Text, codes, join, has_suffix}
use ovn_kubernetes_mcp.Text.Dict.{assign, delete}
use ovn_kubernetes_mcp.Text.Paths.{clean, join_paths, split_last}
use ovn_kubernetes_mcp.Files.{
  Archive, Request, Answer, found, eof, DirEntry, stat, read_dir, create_temp, remove, remove_all,
  open_file, gunzip, untar, mkdir_all, create_file, copy_entry, read_file, read_all, run_command,
  run,
}
use ovn_kubernetes_mcp.Files.Laws.{Ensures}
use ovn_kubernetes_mcp.MustGather.OvsdbTool.Confined.{IsFair}
use ovn_kubernetes_mcp.MustGather.OvsdbTool.Databases.{
  Pod, DbInfo, database_files, map_pods, list_northbound_databases, list_southbound_databases,
}
use ovn_kubernetes_mcp.MustGather.OvsdbTool.Databases.FileNames.{IsListed}
use ovn_kubernetes_mcp.MustGather.OvsdbTool.Databases.Mapping.{node_of, mapping_iff}
use ovn_kubernetes_mcp.MustGather.OvsdbTool.Databases.Confined.{
  IsListing, IsMapping, list_databases-Lists,
}
use ovn_kubernetes_mcp.MustGather.OvsdbTool.Query.{Query, query_database}
use ovn_kubernetes_mcp.MustGather.OvsdbTool.Query.Laws.{IsQuery, query_database-IsQuery}
use ovn_kubernetes_mcp.Tests.Samples.{background, ten_lines, literal, priority}
use ovn_kubernetes_mcp.Text.{split, split_by}
use ovn_kubernetes_mcp.Text.Paths.{clean, join_paths, walk, step_into}
use ovn_kubernetes_mcp.Files.{entry, type_dir, type_reg, requests}
use ovn_kubernetes_mcp.Kubernetes.Output.{JsonPathParser}
use ovn_kubernetes_mcp.MustGather.Omc.Laws.{IsGet, IsList, IsLogs}
use ovn_kubernetes_mcp.MustGather.Tools.{get_resource_tool, list_resources_tool, pod_logs_tool}
use ovn_kubernetes_mcp.MustGather.Tools.Runs.{RunsOmc, IsLogLines, tools-RunsOmc}
use ovn_kubernetes_mcp.MustGather.OvsdbTool.{extract_archive}
use ovn_kubernetes_mcp.MustGather.OvsdbTool.Complete.{
  IsWhole, archive_path, archive_requests, extract_archive-completes,
}
use ovn_kubernetes_mcp.Prelude.{All, arith}
use ovn_kubernetes_mcp.Files.Laws.{Ensures-requests}
use ovn_kubernetes_mcp.Text.Paths.Names.{IsEntryName}

abbrev omc : Text
omc = codes "/usr/bin/omc"

abbrev must_gather : Text
must_gather = codes "/data/must-gather"

abbrev two_pods : List Pod
two_pods =
    record { name = codes "ovnkube-node-a"; node_name = codes "worker-0" }
    ∷ record { name = codes "ovnkube-node-b"; node_name = [] }
    ∷ []

abbrev read_pods : Text → Result (List Pod)
read_pods t = ok two_pods

abbrev written : List DbInfo → Result Text
written infos = ok (join (map (λ (i : DbInfo). i.database) infos) b',')

abbrev store : List DirEntry
store =
    record { name = codes "ovnkube-node-a_nbdb"; is_dir = false }
    ∷ record { name = codes "ovnkube-node-a_sbdb"; is_dir = false }
    ∷ record { name = codes "ovnkube-node-b_nbdb"; is_dir = false }
    ∷ []

list_databases-Lists_example :
    Ensures IsFair
      (IsListing omc must_gather)
      (IsMapping omc must_gather read_pods written true)
      (list_northbound_databases read_pods written background omc must_gather)
    × Ensures IsFair
        (IsListing omc must_gather)
        (IsMapping omc must_gather read_pods written false)
        (list_southbound_databases read_pods written background omc must_gather)
list_databases-Lists_example = list_databases-Lists omc must_gather read_pods written background

abbrev on_worker_0 : DbInfo
on_worker_0 = record { database = codes "ovnkube-node-a_nbdb"; node = codes "worker-0" }

mapped : map_pods (database_files true [] store) two_pods ≡ on_worker_0 ∷ []
unfolding map_pods database_files split_last has_suffix assign delete
mapped = refl

mapping_iff_example :
    Any (λ j. j ≡ on_worker_0) (map_pods (database_files true [] store) two_pods) ↔ (
      (pod : Text) × IsListed true store pod (codes "ovnkube-node-a_nbdb")
      × (node_of pod two_pods ≡ some (codes "worker-0")))
mapping_iff_example = mapping_iff true store two_pods on_worker_0

abbrev plain_json : Text → Result Text
plain_json t = ok t

abbrev query_json : Query Text → Result Text
query_json q = ok q.table

query_database-IsQuery_example :
    Ensures IsFair
      (IsQuery plain_json query_json background
        (codes "/usr/bin/ovsdb-tool")
        must_gather
        (codes "ovnkube-node-a_nbdb")
        (codes "Logical_Switch")
        []
        (codes "name" ∷ []))
      (λ _. Unit)
      (query_database plain_json query_json background
        (codes "/usr/bin/ovsdb-tool")
        must_gather
        (codes "ovnkube-node-a_nbdb")
        (codes "Logical_Switch")
        []
        (codes "name" ∷ []))
query_database-IsQuery_example =
    query_database-IsQuery plain_json query_json background (codes "/usr/bin/ovsdb-tool")
      must_gather (codes "ovnkube-node-a_nbdb") (codes "Logical_Switch") [] (codes "name" ∷ [])

abbrev any_template : JsonPathParser
any_template t = none

tools-RunsOmc_example :
    Ensures IsFair
      (RunsOmc background omc must_gather
        (IsGet must_gather (codes "pod") (codes "default") (codes "web") (codes "yaml")))
      (λ _. Unit)
      (get_resource_tool any_template literal background omc must_gather
        (codes "pod")
        (codes "default")
        (codes "web")
        (codes "yaml"))
    × Ensures IsFair
        (RunsOmc background omc must_gather
          (IsList must_gather (codes "pod") (codes "default") (codes "app=web") (codes "yaml")))
        (λ _. Unit)
        (list_resources_tool any_template literal background omc must_gather
          (codes "pod")
          (codes "default")
          (codes "app=web")
          (codes "yaml"))
    × Ensures IsFair
        (RunsOmc background omc must_gather
          (IsLogs must_gather (codes "default") (codes "web") (codes "nginx") true false))
        (IsLogLines any_template literal background omc must_gather priority ten_lines)
        (pod_logs_tool any_template literal background omc must_gather
          (codes "default")
          (codes "web")
          (codes "nginx")
          true
          false
          priority
          ten_lines)
tools-RunsOmc_example =
    tools-RunsOmc any_template literal background omc must_gather (codes "pod") (codes "default")
      (codes "web") (codes "nginx") (codes "app=web") (codes "yaml") true false priority ten_lines

abbrev logs_directory : Text
logs_directory = codes "/data/must-gather/quay-io/network_logs"

abbrev small_archive : Archive
small_archive =
    entry (record { type_flag = type_dir; name = codes "ovnk_database_store" })
      (entry
        (record { type_flag = type_reg; name = codes "ovnk_database_store/ovnkube-node-a_nbdb" })
        eof)

abbrev archive_disk : (r : Request) → Answer r
archive_disk (stat path) = found false
archive_disk (read_dir path) = ok (record { name = codes "quay-io"; is_dir = true } ∷ [])
archive_disk (create_temp directory pattern) = ok directory
archive_disk (remove path) = ok tt
archive_disk (remove_all path) = ok tt
archive_disk (open_file path) = ok tt
archive_disk (gunzip path) = ok tt
archive_disk (untar path) = ok small_archive
archive_disk (mkdir_all path) = ok tt
archive_disk (create_file path) = ok tt
archive_disk (copy_entry path) = ok tt
archive_disk (read_file path) = ok []
archive_disk (read_all path) = record { text = []; failure = none }
archive_disk (run_command ctx command args) = record { output = []; error = none }

small_archive-IsWhole : IsWhole logs_directory small_archive
unfolding split split_by walk step_into clean join_paths
small_archive-IsWhole = (refl, (refl, tt))

extract_archive-completes_example :
    (run archive_disk (extract_archive logs_directory) ≡ ok tt)
    × (requests archive_disk (extract_archive logs_directory)
        ≡ stat (archive_path logs_directory)
          ∷ open_file (archive_path logs_directory)
          ∷ untar (archive_path logs_directory)
          ∷ archive_requests logs_directory small_archive)
extract_archive-completes_example =
    extract_archive-completes archive_disk logs_directory (λ path. refl, λ path. refl, λ path. refl)
      small_archive false refl refl refl small_archive-IsWhole

quay-IsEntryName : IsEntryName (codes "quay-io")
quay-IsEntryName = ((λ e. cc), (λ e. cc), (λ e. cc), ground arith)

-- The answers of the disk are those that the operating system documents, and the requests of a run
-- against them are those that are ensured.
archive_disk-IsFair : (r : Request) → IsFair r (archive_disk r)
archive_disk-IsFair (stat path) = tt
archive_disk-IsFair (read_dir path) = (quay-IsEntryName, tt)
archive_disk-IsFair (create_temp directory pattern) = ([], refl)
archive_disk-IsFair (remove path) = tt
archive_disk-IsFair (remove_all path) = tt
archive_disk-IsFair (open_file path) = tt
archive_disk-IsFair (gunzip path) = tt
archive_disk-IsFair (untar path) = tt
archive_disk-IsFair (mkdir_all path) = tt
archive_disk-IsFair (create_file path) = tt
archive_disk-IsFair (copy_entry path) = tt
archive_disk-IsFair (read_file path) = tt
archive_disk-IsFair (read_all path) = tt
archive_disk-IsFair (run_command ctx command args) = tt

IsListing-requests :
    All (IsListing omc must_gather) (
      requests archive_disk
        (list_northbound_databases read_pods written background omc must_gather))
IsListing-requests =
    let (north, south) = list_databases-Lists omc must_gather read_pods written background in
    Ensures-requests IsFair (IsListing omc must_gather)
      (IsMapping omc must_gather read_pods written true) archive_disk
      (list_northbound_databases read_pods written background omc must_gather) archive_disk-IsFair
      north
