-- ===== src/Catalog.antt =====
-- pkg/utils/mcptools/catalog.go: `FindRepoRoot`, from the working directory that it starts from. The rest
-- of the file reads the sources of the tools by go/ast.
pub mod Laws
use ovn_kubernetes_mcp.Prelude.{
  Bool, ℕ, zero, suc, true, false, [], ◌∷◌, Option, none, some, errorf, Result, ok, err,
}
use ovn_kubernetes_mcp.Text.{Text, codes, text_eq}
use ovn_kubernetes_mcp.Text.Paths.{join_paths, dir}
use ovn_kubernetes_mcp.Files.{Stat, found, missing, unknown, stat, Tree, leaf, ask}

abbrev pub go_mod : Text → Text
go_mod directory = join_paths (directory ∷ codes "go.mod" ∷ [])

-- `os.Stat` gives no error.
abbrev pub is_found : Stat → Bool
is_found (found is_dir) = true
is_found (missing e) = false
is_found (unknown e) = false

-- The loop, on fuel: its result, or nothing where the fuel is used up.
unfoldable pub find_repo_root : ℕ → Text → Tree (Option (Result Text))
find_repo_root zero directory = leaf none
find_repo_root (suc fuel) directory = ask (stat (go_mod directory)) (λ s. elim (is_found s) [
  | true ↦ leaf (some (ok directory))
  | false ↦ elim (text_eq (dir directory) directory) [
    | true ↦ leaf (some (err (errorf "go.mod not found" [])))
    | false ↦ find_repo_root fuel (dir directory)
  ]
])
