-- ===== src/Kernel/Iptables.antt =====
-- pkg/kernel/mcp/iptables.go.
pub mod Allowed
use ovn_kubernetes_mcp.Text.{
  contains, split, Text, codes, text_eq, elem, trim_space, fields, is_atoi,
}
use ovn_kubernetes_mcp.Exec.{Context, M, ◌>>=◌, ◌>>◌, ret, done, wrap_all}
use ovn_kubernetes_mcp.Utils.CommandBuilder.{new_command, build, add_if, add_if_not_empty}
use ovn_kubernetes_mcp.Utils.Validate.{validate_safe_string, default}
use ovn_kubernetes_mcp.Utils.Timeout.{with_timeout}
use ovn_kubernetes_mcp.Kernel.Util.{utility_exists, execute_command, render}
use ovn_kubernetes_mcp.Kernel.Params.{ListIptablesParams, Config}
use ovn_kubernetes_mcp.Prelude.{
  reject_if, not, ◌&&◌, errorf, true, is_empty, err, wrap, ok, ◌||◌, [], List, any, Bool, Result, ℕ,
  if◌then◌else◌, ◌∷◌,
}

abbrev pub valid_tables : List Text
valid_tables = codes "filter" ∷ codes "nat" ∷ codes "mangle" ∷ codes "raw" ∷ codes "security" ∷ []

abbrev pub valid_commands : List Text
valid_commands = codes "-L" ∷ codes "-S" ∷ codes "--list" ∷ codes "--list-rules" ∷ []

-- The test on one word of the filter.
abbrev pub asks_for_ipv6 : Text → Bool
asks_for_ipv6 item =
    text_eq item (codes "--ipv6") || (contains item (codes "-") && contains item (codes "6"))

unfoldable pub iptables_command : Text → Text
iptables_command filter_parameters =
    if any asks_for_ipv6 (split filter_parameters b' ') then codes "ip6tables" else codes "iptables"

unfoldable pub validate_table_name : Text → Result (Unit {0})
validate_table_name [] = ok tt
validate_table_name (c ∷ s) =
    if is_atoi (c ∷ s)
    then err (errorf "invalid table name: %s" ((c ∷ s) ∷ []))
    else reject_if (not (elem (trim_space (c ∷ s)) valid_tables))
        (errorf "invalid table name: %s" ((c ∷ s) ∷ []))

unfoldable pub validate_iptables_command : Text → Result (Unit {0})
validate_iptables_command [] = ok tt
validate_iptables_command (c ∷ s) =
    if is_atoi (c ∷ s)
    then err (errorf "invalid iptables command: %s" ((c ∷ s) ∷ []))
    else reject_if (not (elem (trim_space (c ∷ s)) valid_commands))
        (errorf "invalid iptables command: %s" ((c ∷ s) ∷ []))

abbrev pub iptables_error : {A : Type 0} → Result A → M A
iptables_error r = ret (wrap "error while getting list of iptables rules: %w" [] r)

-- The argument vector that `GetIptables` builds, from the trimmed table and command.
unfoldable pub iptables_args : Text → Text → Text → List Text
iptables_args table command filter_parameters =
    let base = new_command (iptables_command filter_parameters ∷ []) in
    let with_filter = add_if base (is_empty table) (codes "-t" ∷ codes "filter" ∷ []) in
    let with_table = add_if_not_empty with_filter table (codes "-t" ∷ table ∷ []) in
    let with_list = add_if with_table (is_empty command) (codes "-L" ∷ []) in
    let with_command = add_if_not_empty with_list command (command ∷ []) in
    build (
      add_if with_command
        (not (is_empty filter_parameters)
          && not (text_eq command (codes "-S"))
          && not (text_eq command (codes "--list-rules")))
        (fields filter_parameters))

unfoldable pub get_iptables : Config → ℕ → Context → ListIptablesParams → M Text
get_iptables cfg now parent inp = do
  let ctx = with_timeout now inp.timeout parent
  wrap_all
      "error while getting list of iptables rules: failed to verify iptables utility availability in configured image: %w"
      [] (utility_exists cfg ctx inp.namespace inp.node (codes "iptables"))
  iptables_error (validate_table_name inp.table)
  iptables_error (validate_iptables_command inp.command)
  iptables_error
      (validate_safe_string inp.filter_parameters (codes "filter parameters") true default)
  (stdout, stderr) ← wrap_all "error while getting list of iptables rules: %w" [] (
      execute_command cfg ctx inp.namespace inp.node
        (iptables_args (trim_space inp.table) (trim_space inp.command) inp.filter_parameters))
  ret (reject_if (not (is_empty stderr)) (errorf "error while running command: %s" (stderr ∷ [])))
  done (render inp.head_tail stdout)
