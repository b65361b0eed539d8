-- ===== src/MustGather/OvsdbTool/Databases.antt =====
-- pkg/must-gather/ovsdb-tool/list-dbs.go. `json.Unmarshal` of the pods and `json.Marshal` of the mapping
-- are parameters.
pub mod Mapping
pub mod FileNames
pub mod Confined
use ovn_kubernetes_mcp.Prelude.{
  Bool, true, false, not, List, [], ◌∷◌, Option, none, some, if◌then◌else◌, is_empty, errorf, wrapf,
  wrap, reject_if, Result, ok, err,
}
use ovn_kubernetes_mcp.Text.{Text, codes, has_suffix}
use ovn_kubernetes_mcp.Text.Dict.{lookup, assign, delete}
use ovn_kubernetes_mcp.Text.Paths.{split_last}
use ovn_kubernetes_mcp.Exec.{Context}
use ovn_kubernetes_mcp.Files.{
  DirEntry, Outcome, read_dir, leaf, ask, Program, ◌>>=◌, ◌>>◌, wrapped, wrap_all,
}
use ovn_kubernetes_mcp.MustGather.Omc.{list_resources, list_resources_result, json_output_type}
use ovn_kubernetes_mcp.MustGather.Path.{run_session}
use ovn_kubernetes_mcp.MustGather.OvsdbTool.{extract_ovn_databases}

-- What is read of a `corev1.Pod`.
pub record Pod : Type 0 where
  pub name : Text
  pub node_name : Text

pub record DbInfo : Type 0 where
  pub database : Text
  pub node : Text

abbrev pub db_suffix : Bool → Text
db_suffix true = codes "_nbdb"
db_suffix false = codes "_sbdb"

-- One round of the loop of `listOvnDatabases` over a name with what is before its last underscore, if
-- it has one. A name without, or with nothing before it, is only logged.
abbrev pub add_database :
    Bool → Text → Option (Text × Text) → List (Text × Text) → List (Text × Text)
add_database is_northbound name none files = files
add_database is_northbound name (some ([], behind)) files = files
add_database is_northbound name (some (c ∷ pod, behind)) files =
    if has_suffix name (db_suffix is_northbound) then assign (c ∷ pod) name files else files

unfoldable pub database_files : Bool → List (Text × Text) → List DirEntry → List (Text × Text)
database_files is_northbound files [] = files
database_files is_northbound files (e ∷ es) =
    database_files is_northbound
      (if not e.is_dir
        then add_database is_northbound e.name (split_last b'_' e.name) files
        else files)
      es

unfoldable pub list_ovn_databases : Text → Bool → Program (List (Text × Text))
list_ovn_databases mustgather_path is_northbound = do
  db_path ←
      wrap_all "failed to extract ovn databases: %w" [] (extract_ovn_databases mustgather_path)
  db_files ← ask (read_dir db_path) (wrapped "failed to read ovn databases: %w" [])
  leaf (ok (database_files is_northbound [] db_files))

-- The loop of `getDatabaseToNodeMapping` over the pods.
unfoldable pub map_pods : List (Text × Text) → List Pod → List DbInfo
map_pods db_files [] = []
map_pods db_files (pod ∷ pods) = elim (is_empty db_files) [
  | true ↦ []
  | false ↦ elim (lookup pod.name db_files) [
    | none ↦ map_pods db_files pods
    | some db_file ↦ elim (is_empty pod.node_name) [
      | true ↦ map_pods db_files pods
      | false ↦
          record { database = db_file; node = pod.node_name }
          ∷ map_pods (delete pod.name db_files) pods
    ]
  ]
]

abbrev pub ovnkube_node_label_selector : Text
ovnkube_node_label_selector = codes "app=ovnkube-node"

-- `omcClient.ListResources`.
unfoldable pub omc_list_resources : Context → Text → Text → Text → Text → Text → Text → Program Text
omc_list_resources ctx omc path kind namespace label_selector output_type = do
  session ← leaf (list_resources path kind namespace label_selector output_type)
  o ← run_session ctx omc session
  leaf (list_resources_result output_type o)

module _ (unmarshal_pods : Text → Result (List Pod))
    (marshal_infos : List DbInfo → Result Text) where
  unfoldable pub get_database_to_node_mapping : Context → Text → Text → Bool → Program Text
  get_database_to_node_mapping ctx omc mustgather_path is_northbound = do
    db_files ←
        wrap_all "failed to list ovn databases: %w" []
          (list_ovn_databases mustgather_path is_northbound)
    leaf (reject_if (is_empty db_files) (errorf "no ovn databases found" []))
    listed ← wrap_all "failed to list pods: %w" [] (
        omc_list_resources ctx omc mustgather_path (codes "pod") [] ovnkube_node_label_selector
          json_output_type)
    pods ← leaf (wrap "failed to unmarshal ovnkube-node pods data: %w" [] (unmarshal_pods listed))
    leaf (
        wrap "failed to marshal database to node data: %w" []
          (marshal_infos (map_pods db_files pods)))

  unfoldable pub list_northbound_databases : Context → Text → Text → Program Text
  list_northbound_databases ctx omc mustgather_path =
      wrap_all "failed to get database to node mapping: %w" []
        (get_database_to_node_mapping ctx omc mustgather_path true)

  unfoldable pub list_southbound_databases : Context → Text → Text → Program Text
  list_southbound_databases ctx omc mustgather_path =
      wrap_all "failed to get database to node mapping: %w" []
        (get_database_to_node_mapping ctx omc mustgather_path false)
