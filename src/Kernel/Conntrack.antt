-- ===== src/Kernel/Conntrack.antt =====
-- pkg/kernel/mcp/conntrack.go.
pub mod Allowed
pub mod SummaryLine
pub mod Summary
pub mod Reports
use ovn_kubernetes_mcp.Text.{Text, codes, text_eq, elem, trim_space, fields, is_atoi}
use ovn_kubernetes_mcp.Exec.{attempt, Context, M, ◌>>=◌, ◌>>◌, ret, done, wrap_all}
use ovn_kubernetes_mcp.Utils.CommandBuilder.{new_command, add, build}
use ovn_kubernetes_mcp.Utils.Validate.{validate_safe_string, default}
use ovn_kubernetes_mcp.Utils.Timeout.{with_timeout}
use ovn_kubernetes_mcp.Kernel.Util.{
  utility_exists, execute_command, render, split_conntrack_summary,
}
use ovn_kubernetes_mcp.Kernel.Params.{ListConntrackParams, Config}
use ovn_kubernetes_mcp.Prelude.{
  reject_if, true, errorf, is_ok, ◌++◌, ◌&&◌, err, is_empty, wrap, ok, List, ℕ, Bool, Result, [],
  not, if◌then◌else◌, ◌∷◌,
}

abbrev pub conntrack_system_file : Text
conntrack_system_file = codes "/proc/net/nf_conntrack"

abbrev pub valid_commands : List Text
valid_commands =
    codes "-L" ∷ codes "-S" ∷ codes "-C" ∷ codes "--dump" ∷ codes "--stats" ∷ codes "--count" ∷ []

unfoldable pub validate_conntrack_command : Text → Bool → Result (Unit {0})
validate_conntrack_command [] cli_available = ok tt
validate_conntrack_command (c ∷ s) cli_available =
    if not cli_available
      && (not (text_eq (trim_space (c ∷ s)) (codes "-L"))
          && not (text_eq (trim_space (c ∷ s)) (codes "--dump")))
    then err (
        errorf
          "configured image does not have conntrack utility, only -L/--dump is supported with limited filters"
          [])
    else if is_atoi (c ∷ s)
    then err (errorf "invalid command: %s" ((c ∷ s) ∷ []))
    else reject_if (not (elem (trim_space (c ∷ s)) valid_commands))
        (errorf "invalid command: %s" ((c ∷ s) ∷ []))

abbrev pub conntrack_error : {A : Type 0} → Result A → M A
conntrack_error r = ret (wrap "error while getting list of conntrack entries: %w" [] r)

-- The argument vector of `getConntrackUsingCLI`.
unfoldable pub conntrack_args : Text → Text → List Text
conntrack_args command filter_parameters =
    let cmd = new_command (codes "conntrack" ∷ []) in
    build (
      if elem command (codes "-L" ∷ codes "--dump" ∷ [])
      then add (add cmd (command ∷ [])) (fields filter_parameters)
      else if elem command (codes "-S" ∷ codes "--stats" ∷ [])
      then add cmd (command ∷ [])
      else if elem command (codes "-C" ∷ codes "--count" ∷ [])
      then add cmd (command ∷ [])
      else add (add cmd (codes "-L" ∷ [])) (fields filter_parameters))

unfoldable pub get_conntrack_using_cli :
    Config → Context → Text → Text → Text → Text → M (Text × Text)
get_conntrack_using_cli cfg ctx namespace node command filter_parameters =
    execute_command cfg ctx namespace node (conntrack_args command filter_parameters)

unfoldable pub get_conntrack_from_file : Config → Context → Text → Text → M (Text × Text)
get_conntrack_from_file cfg ctx namespace node =
    execute_command cfg ctx namespace node
      (build (add (new_command (codes "cat" ∷ [])) (conntrack_system_file ∷ [])))

-- The summary of the standard error, which holds nothing else.
unfoldable pub conntrack_summary : Text → Result Text
conntrack_summary [] = ok []
conntrack_summary (c ∷ s) =
    let (summary, remaining) = split_conntrack_summary (c ∷ s) in
    if not (is_empty remaining)
    then err (errorf "error while running command: %s" (remaining ∷ []))
    else ok summary

abbrev pub with_summary : Text → Text → Text
with_summary stdout summary =
    if not (is_empty summary)
    then stdout ++ (codes "\n -- conntrack summary --\n" ++ summary)
    else stdout

unfoldable pub get_conntrack : Config → ℕ → Context → ListConntrackParams → M Text
get_conntrack cfg now parent inp = do
  let ctx = with_timeout now inp.timeout parent
  found ← attempt (utility_exists cfg ctx inp.namespace inp.node (codes "conntrack"))
  let conntrack_cli_available = is_ok found
  conntrack_error (validate_conntrack_command inp.command conntrack_cli_available)
  conntrack_error
      (validate_safe_string inp.filter_parameters (codes "filter parameters") true default)
  (stdout, stderr) ← wrap_all "error while getting list of conntrack entries: %w" [] (
      if not conntrack_cli_available
      then get_conntrack_from_file cfg ctx inp.namespace inp.node
      else get_conntrack_using_cli cfg ctx inp.namespace inp.node (trim_space inp.command)
          inp.filter_parameters)
  summary ← ret (conntrack_summary stderr)
  done (with_summary (render inp.head_tail stdout) summary)
