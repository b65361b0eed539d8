-- ===== src/MustGather/OvsdbTool.antt =====
-- pkg/must-gather/ovsdb-tool/utils.go: the directory of the network logs, and the extraction of the OVN
-- databases from its archive.
pub mod Complete
pub mod Confined
pub mod Logs
pub mod Databases
pub mod Query
use ovn_kubernetes_mcp.Prelude.{
  Bool, true, false, not, List, [], ◌∷◌, ◌++◌, map, Option, none, some, errorf, wrapf, wrap,
  reject_if, Result, ok, err,
}
use ovn_kubernetes_mcp.Text.{Text, codes, has_prefix}
use ovn_kubernetes_mcp.Text.Paths.{slash, clean, join_paths, dir}
use ovn_kubernetes_mcp.Files.{
  Stat, found, missing, unknown, DirEntry, Header, type_dir, type_reg, type_other, Archive, eof,
  broken, entry, TypeFlag, stat, read_dir, create_temp, remove, remove_all, open_file, untar,
  mkdir_all, create_file, copy_entry, leaf, ask, asked, Program, ◌>>=◌, ◌>>◌, wrapped, wrap_all,
}
use ovn_kubernetes_mcp.MustGather.Path.{check_found, validate_must_gather_path}

abbrev pub network_logs_directory : Text
network_logs_directory = codes "network_logs"

abbrev pub ovnk_database_store : Text
ovnk_database_store = codes "ovnk_database_store"

-- The loop of `getNetworkLogsDirectory`: the only directory among the entries, with the one seen so
-- far. The errors list the entries.
unfoldable pub only_directory : List Text → Option Text → List DirEntry → Result Text
only_directory names none [] =
    err (errorf "must gather path does not contain any directories: %v" names)
only_directory names (some d) [] = ok d
only_directory names seen (e ∷ es) = elim e.is_dir [
  | false ↦ only_directory names seen es
  | true ↦ elim seen [
    | some d ↦ err (errorf "must gather path contains multiple directories: %v" names)
    | none ↦ only_directory names (some e.name) es
  ]
]

unfoldable pub get_network_logs_directory : Text → Program Text
get_network_logs_directory mustgather_path = do
  wrap_all "failed to validate must gather path: %w" [] (validate_must_gather_path mustgather_path)
  dirs ← ask (read_dir mustgather_path) (wrapped "failed to read must gather path: %w" [])
  name ← leaf (only_directory (map (λ e. e.name) dirs) none dirs)
  let path = join_paths (mustgather_path ∷ name ∷ network_logs_directory ∷ [])
  check_found "network logs directory %s not found: %w"
      "failed to stat network logs directory %s: %w" path
  leaf (ok path)

-- The temporary file is removed again; an error of that is only logged.
unfoldable pub is_writable : Text → Program Bool
is_writable path = do
  name ← ask (create_temp path (codes "tmpfile")) (wrapped "failed to create temporary file: %w" [])
  ask (remove name) (λ _. leaf (ok true))

-- `strings.HasPrefix(filepath.Clean(destPath)+"/", filepath.Clean(networkLogsPath)+"/")`
abbrev pub leads_inside : Text → Text → Bool
leads_inside directory path =
    has_prefix (clean path ++ (slash ∷ [])) (clean directory ++ (slash ∷ []))

unfoldable pub extract_directory : Text → Text → Program (Unit {0})
extract_directory directory name = do
  let dest = join_paths (directory ∷ name ∷ [])
  leaf (
      reject_if (not (leads_inside directory dest))
        (errorf "invalid directory path in archive: %s" (name ∷ [])))
  ask (mkdir_all dest) (wrapped "failed to create directory: %w" [])

unfoldable pub extract_file : Text → Text → Program (Unit {0})
extract_file directory name = do
  let dest = join_paths (directory ∷ name ∷ [])
  leaf (
      reject_if (not (leads_inside directory dest))
        (errorf "invalid file path in archive: %s" (name ∷ [])))
  ask (mkdir_all (dir dest)) (wrapped "failed to create parent directory: %w" [])
  ask (create_file dest) (wrapped "failed to create db file: %w" [])
  ask (copy_entry dest) (wrapped "failed to copy db file: %w" [])

-- One round of the loop over the archive.
unfoldable pub extract_entry : Text → TypeFlag → Text → Program (Unit {0})
extract_entry directory type_dir name = extract_directory directory name
extract_entry directory type_reg name =
    wrap_all "failed to create db file: %w" [] (extract_file directory name)
extract_entry directory type_other name =
    leaf (err (errorf "unsupported tar entry type %v for %s" (name ∷ [])))

unfoldable pub extract_entries : Text → Archive → Program (Unit {0})
extract_entries directory eof = leaf (ok tt)
extract_entries directory (broken e) = leaf (err (wrapf "failed to read tar header: %w" [] e))
extract_entries directory (entry h rest) = do
  extract_entry directory h.type_flag h.name
  extract_entries directory rest

-- Only `os.IsNotExist` ends the extraction here.
abbrev pub archive_there : Stat → Result (Unit {0})
archive_there (missing e) = err (wrapf "ovnk database store tar file not found: %w" [] e)
archive_there s = ok tt

unfoldable pub extract_archive : Text → Program (Unit {0})
extract_archive directory = do
  let tar_path = join_paths (directory ∷ (ovnk_database_store ++ codes ".tar.gz") ∷ [])
  ask (stat tar_path) (λ s. leaf (archive_there s))
  ask (open_file tar_path) (wrapped "failed to open gz file: %w" [])
  archive ← ask (untar tar_path) (wrapped "failed to create gzip reader: %w" [])
  extract_entries directory archive

-- What is done about the store, whatever stands in its place.
unfoldable pub extract_unless_there : Text → Text → Stat → Program (Unit {0})
extract_unless_there directory db_path (found true) = leaf (ok tt)
extract_unless_there directory db_path (found false) = do
  ask (remove_all db_path) (wrapped "failed to remove db directory: %w" [])
  extract_archive directory
extract_unless_there directory db_path s = extract_archive directory

unfoldable pub extract_below : Text → Program Text
extract_below directory = do
  writable ←
      wrap_all "failed to check if network logs path is writable: %w" [] (is_writable directory)
  leaf (reject_if (not writable) (errorf "network logs path does not have write permissions" []))
  let db_path = join_paths (directory ∷ ovnk_database_store ∷ [])
  s ← asked (stat db_path)
  extract_unless_there directory db_path s
  leaf (ok db_path)

unfoldable pub extract_ovn_databases : Text → Program Text
extract_ovn_databases mustgather_path = do
  directory ←
      wrap_all "failed to get network logs directory: %w" []
        (get_network_logs_directory mustgather_path)
  extract_below directory
