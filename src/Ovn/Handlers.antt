-- ===== src/Ovn/Handlers.antt =====
-- The handlers of pkg/ovn/mcp/mcp.go. The result that accompanies an error is left out. `compile` is
-- `regexp.Compile`.
use ovn_kubernetes_mcp.Prelude.{ok, true, not, ◌||◌, List, [], ◌∷◌, ◌++◌, if◌then◌else◌, is_empty}
use ovn_kubernetes_mcp.Text.{Text, codes, text_eq, join}
use ovn_kubernetes_mcp.Exec.{Context, M, ◌>>=◌, ◌>>◌, ret, done}
use ovn_kubernetes_mcp.Utils.HeadTail.{apply}
use ovn_kubernetes_mcp.Utils.Lines.{newline}
use ovn_kubernetes_mcp.Utils.OvnDb.{validate_ovn_table_name}
use ovn_kubernetes_mcp.Utils.Pattern.{Regexp, execute_with_match}
use ovn_kubernetes_mcp.Pods.{pod_lines}
use ovn_kubernetes_mcp.Ovn.Types.{
  ShowParams, ShowResult, GetParams, GetResult, LogicalFlowListParams, LogicalFlowListResult,
  OvnTraceParams, OvnTraceResult, trace_mode_detailed, trace_mode_summary, trace_mode_minimal,
}
use ovn_kubernetes_mcp.Ovn.Validate.{
  default_max_lines, validate_database, validate_record_name, validate_datapath, validate_microflow,
  validate_column_spec, get_db_command,
}

unfoldable pub show : Context → ShowParams → M ShowResult
show ctx inp = do
  ret (validate_database inp.database)
  lines ←
      pod_lines ctx inp.namespace inp.name (get_db_command inp.database ∷ codes "show" ∷ [])
        "failed to retrieve OVN configuration from pod %s/%s: %w"
        "failed to retrieve OVN configuration from pod %s/%s: %s" (inp.namespace ∷ inp.name ∷ [])
  done (record {
    database = inp.database;
    output = join (apply inp.head_tail lines default_max_lines) newline;
  })

-- `cmdArgs` of `Get` before the record's name is looked at.
unfoldable pub columns_args : Text → Text → List Text
columns_args database columns =
    let cmd = get_db_command database ∷ [] in
    if not (is_empty columns) then cmd ++ ((codes "--columns=" ++ columns) ∷ []) else cmd

-- What is given to `ExecuteWithMatch` in `Get`; the record's name chooses among the formats.
unfoldable pub get_lines : Context → GetParams → List Text → M (List Text)
get_lines ctx inp args =
    if not (is_empty inp.record_name)
    then pod_lines ctx inp.namespace inp.name args
        "failed to get record %s from table %s on pod %s/%s: %w"
        "failed to get record %s from table %s on pod %s/%s: %s"
        (inp.record_name ∷ inp.table ∷ inp.namespace ∷ inp.name ∷ [])
    else pod_lines ctx inp.namespace inp.name args "failed to list table %s from pod %s/%s: %w"
        "failed to list table %s from pod %s/%s: %s" (inp.table ∷ inp.namespace ∷ inp.name ∷ [])

-- The two modes of `Get`: all records, or the one that is named once its name is validated.
unfoldable pub get_args : GetParams → M (List Text)
get_args inp =
    if is_empty inp.record_name
    then done (columns_args inp.database inp.columns ++ (codes "list" ∷ inp.table ∷ []))
    else (do
      ret (validate_record_name inp.record_name)
      done (
          columns_args inp.database inp.columns
          ++ (codes "list" ∷ inp.table ∷ inp.record_name ∷ [])))

-- The format flag, and none for a mode that the switch does not name.
unfoldable pub mode_args : Text → List Text
mode_args mode =
    if text_eq mode trace_mode_summary
    then codes "--summary" ∷ []
    else if text_eq mode trace_mode_minimal
    then codes "--minimal" ∷ []
    else if text_eq mode trace_mode_detailed || is_empty mode
    then codes "--detailed" ∷ []
    else []

module _ (compile : Regexp) (ctx : Context) where
  unfoldable pub get : GetParams → M GetResult
  get inp = do
    ret (validate_database inp.database)
    ret (validate_ovn_table_name inp.table)
    ret (validate_column_spec inp.columns)
    args ← get_args inp
    lines ←
        execute_with_match compile inp.pattern (get_lines ctx inp args) (is_empty inp.record_name)
    done (record {
      database = inp.database;
      table = inp.table;
      record_name = inp.record_name;
      output = join (apply inp.head_tail lines default_max_lines) newline;
    })

  unfoldable pub list_logical_flows : LogicalFlowListParams → M LogicalFlowListResult
  list_logical_flows inp = do
    ret (if not (is_empty inp.datapath) then validate_datapath inp.datapath else ok tt)
    let base = codes "ovn-sbctl" ∷ codes "lflow-list" ∷ []
    let args = if not (is_empty inp.datapath) then base ++ (inp.datapath ∷ []) else base
    lines ←
        execute_with_match compile inp.pattern
          (pod_lines ctx inp.namespace inp.name args
            "failed to list logical flows from pod %s/%s: %w"
            "failed to list logical flows from pod %s/%s: %s" (inp.namespace ∷ inp.name ∷ []))
          true
    done (record { datapath = inp.datapath; flows = apply inp.head_tail lines default_max_lines })

  unfoldable pub trace : OvnTraceParams → M OvnTraceResult
  trace inp = do
    ret (validate_datapath inp.datapath)
    ret (validate_microflow inp.microflow)
    let base = (codes "ovn-trace" ∷ []) ++ mode_args inp.mode
    lines ←
        execute_with_match compile inp.pattern
          (pod_lines ctx inp.namespace inp.name (base ++ (inp.datapath ∷ inp.microflow ∷ []))
            "failed to trace packet on pod %s/%s: %w" "failed to trace packet on pod %s/%s: %s"
            (inp.namespace ∷ inp.name ∷ []))
          true
    done (record {
      datapath = inp.datapath;
      microflow = inp.microflow;
      output = join (apply inp.head_tail lines default_max_lines) newline;
    })
