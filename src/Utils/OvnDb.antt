-- ===== src/Utils/OvnDb.antt =====
-- pkg/utils/ovndb/ovn_db.go.
use ovn_kubernetes_mcp.Prelude.{
  Bool, false, ◌&&◌, ◌||◌, not, [], ◌∷◌, ◌==◌, if◌then◌else◌, every, errorf, Result, ok, err,
}
use ovn_kubernetes_mcp.Text.{Text, is_letter, is_alnum}

-- `^[a-zA-Z][a-zA-Z0-9_]*$`
abbrev pub valid_ovn_table_name_pattern : Text → Bool
valid_ovn_table_name_pattern [] = false
valid_ovn_table_name_pattern (c ∷ s) = is_letter c && every (λ d. is_alnum d || d == b'_') s

unfoldable pub validate_ovn_table_name : Text → Result (Unit {0})
validate_ovn_table_name [] = err (errorf "table name cannot be empty" [])
validate_ovn_table_name (c ∷ s) =
    if not (valid_ovn_table_name_pattern (c ∷ s))
    then err (
        errorf
          "invalid table name %q: must start with a letter and contain only alphanumeric characters and underscores"
          ((c ∷ s) ∷ []))
    else ok tt
