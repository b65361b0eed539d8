-- ===== src/Ovn/Validate.antt =====
-- pkg/ovn/mcp/commands.go.
pub mod Laws
use ovn_kubernetes_mcp.Prelude.{
  ℕ, true, false, ◌||◌, [], ◌∷◌, if◌then◌else◌, errorf, Result, ok, err,
}
use ovn_kubernetes_mcp.Text.{Text, codes, text_eq}
use ovn_kubernetes_mcp.Utils.Validate.{validate_safe_string, default, allow_brackets_allow_amp}
use ovn_kubernetes_mcp.Ovn.Types.{northbound_db, southbound_db}

abbrev pub default_max_lines : ℕ
default_max_lines = 100

unfoldable pub validate_database : Text → Result (Unit {0})
validate_database db =
    if text_eq db northbound_db || text_eq db southbound_db
    then ok tt
    else err (errorf "invalid database %q: must be 'nbdb' or 'sbdb'" (db ∷ []))

unfoldable pub validate_record_name : Text → Result (Unit {0})
validate_record_name name = validate_safe_string name (codes "record identifier") false default

unfoldable pub validate_datapath : Text → Result (Unit {0})
validate_datapath datapath = validate_safe_string datapath (codes "datapath name") false default

unfoldable pub validate_microflow : Text → Result (Unit {0})
validate_microflow microflow =
    validate_safe_string microflow (codes "microflow specification") false allow_brackets_allow_amp

unfoldable pub validate_column_spec : Text → Result (Unit {0})
validate_column_spec columns =
    validate_safe_string columns (codes "column specification") true default

unfoldable pub get_db_command : Text → Text
get_db_command db = if text_eq db southbound_db then codes "ovn-sbctl" else codes "ovn-nbctl"
