-- ===== src/Tests/CatalogTests.antt =====
-- The search for the root of the repository from a concrete directory.
use ovn_kubernetes_mcp.Prelude.{
  errorf, length, ◌+◌, ◌<◌, refl, false, ok, arith, none, [], if◌then◌else◌,
}
use ovn_kubernetes_mcp.Text.{codes, text_eq, split, split_by, join}
use ovn_kubernetes_mcp.Text.Paths.{clean, dir, through_slash, walk, step_into}
use ovn_kubernetes_mcp.Text.Paths.Laws.{place}
use ovn_kubernetes_mcp.Files.{
  Request, Answer, found, missing, eof, stat, read_dir, create_temp, remove, remove_all, open_file,
  gunzip, untar, mkdir_all, create_file, copy_entry, read_file, read_all, run_command,
}
use ovn_kubernetes_mcp.Catalog.Laws.{Ends, find_repo_root-Ends}

-- A file system with one go.mod.
abbrev one_module : (r : Request) → Answer r
one_module (stat path) =
    if text_eq path (codes "/src/go.mod") then found false else missing (errorf "not found" [])
one_module (read_dir path) = ok []
one_module (create_temp directory pattern) = ok directory
one_module (remove path) = ok tt
one_module (remove_all path) = ok tt
one_module (open_file path) = ok tt
one_module (gunzip path) = ok tt
one_module (untar path) = ok eof
one_module (mkdir_all path) = ok tt
one_module (create_file path) = ok tt
one_module (copy_entry path) = ok tt
one_module (read_file path) = ok []
one_module (read_all path) = record { text = []; failure = none }
one_module (run_command ctx command args) = record { output = []; error = none }

enough_fuel : length (place (dir (codes "/src/pkg/utils"))) + 1 < 4
unfolding place dir clean through_slash walk step_into split split_by join
enough_fuel = omega arith

find_repo_root-Ends_example : Ends one_module 4 (codes "/src/pkg/utils")
find_repo_root-Ends_example =
    find_repo_root-Ends one_module 4 (codes "/src/pkg/utils") refl enough_fuel
