-- ===== src/Utils/Lines.antt =====
-- `StripEmptyLines` of pkg/utils/utils.go.
pub mod Laws
use ovn_kubernetes_mcp.Prelude.{ℕ, not, List, [], ◌∷◌, is_empty, keep}
use ovn_kubernetes_mcp.Text.{Text, trim_space}

abbrev pub newline : ℕ
newline = 10

unfoldable pub strip_empty_lines : List Text → List Text
strip_empty_lines [] = []
strip_empty_lines (l ∷ ls) = keep (λ line. not (is_empty (trim_space line))) (l ∷ ls)
