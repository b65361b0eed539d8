-- ===== src/Ovn/Allowed.antt =====
-- The commands that the handlers of pkg/ovn/mcp/mcp.go run, and what they return.
use ovn_kubernetes_mcp.Utils.HeadTail.Runs.{window-All}
use ovn_kubernetes_mcp.Ovn.Args.{
  mode_args-ModeFlag, columns_args_lem, lists, traces, lists_flows, shows, LogicalFlowArgs,
  TraceArgs, ShowArgs, GetArgs,
}
use ovn_kubernetes_mcp.Ovn.Validate.Laws.{
  IsTable, validate_ovn_table_name-IsTable, validate_database-DbCommand, given_datapath,
  validate_safe_string-IsSafe, DbCommand,
}
use ovn_kubernetes_mcp.Prelude.{
  ◌≡◌, refl, inl, inr, true, false, Bool-cases, List, [], ◌∷◌, ◌++◌, All, is_empty, is_empty-eq,
  not, if◌then◌else◌, length,
}
use ovn_kubernetes_mcp.Text.{Text, codes, join}
use ovn_kubernetes_mcp.Exec.{Context}
use ovn_kubernetes_mcp.Exec.Laws.{Ensures, Ensures-lift, Ensures-bind}
use ovn_kubernetes_mcp.Utils.CommandBuilder.{when_given, when_given_lem}
use ovn_kubernetes_mcp.Utils.HeadTail.{HeadTailParams}
use ovn_kubernetes_mcp.Utils.HeadTail.Laws.{Within, apply-Within, apply-IsWindow}
use ovn_kubernetes_mcp.Utils.Lines.{newline}
use ovn_kubernetes_mcp.Utils.Pattern.{PatternParams, Regexp}
use ovn_kubernetes_mcp.Utils.Validate.{default, allow_brackets_allow_amp}
use ovn_kubernetes_mcp.Utils.Validate.Laws.{Admits, validate_safe_string-All}
use ovn_kubernetes_mcp.Pods.Laws.{IsLine, IsPodCall, Ensures-pod_lines, IsListing, Ensures-listing}
use ovn_kubernetes_mcp.Ovn.Types.{ShowParams, GetParams, LogicalFlowListParams, OvnTraceParams}
use ovn_kubernetes_mcp.Ovn.Validate.{
  validate_record_name, validate_datapath, validate_microflow, validate_column_spec, get_db_command,
}
use ovn_kubernetes_mcp.Ovn.Handlers.{
  show, get_lines, get_args, mode_args, get, list_logical_flows, trace,
}

-- The lines of an output.
pub record IsOutput (compile : Regexp) (p : PatternParams) (h : HeadTailParams) (out : Text)
    : Type 0 where
  pub lines : List Text
  pub listing : IsListing compile p h lines
  pub text : out ≡ join lines newline

module _ (ctx : Context) (inp : ShowParams) where
  -- Whatever the request and whatever the cluster answers, the command that `Show` runs is
  -- `ovn-nbctl show` for `nbdb` and `ovn-sbctl show` for `sbdb`, and there is no other database; it runs
  -- in the default container of the pod that is asked for. The output is made of lines that are not blank,
  -- no more than head and tail allow.
  pub show-Ensures :
      Ensures
        (IsPodCall ctx inp.namespace inp.name (ShowArgs inp))
        (λ r.
          (lines : List Text) × All IsLine lines
          × Within inp.head_tail 100 (length lines)
          × (r.output ≡ join lines newline))
        (show ctx inp)
  unfolding show
  show-Ensures = Ensures-lift _ _ _ _ λ _ database_ok.
      Ensures-bind _ _ _ (All IsLine) _
        (Ensures-pod_lines ctx inp.namespace inp.name (ShowArgs inp) _ _ _ _
          (shows (validate_database-DbCommand inp.database database_ok)))
        λ lines a. (
          _,
          window-All IsLine (apply-IsWindow inp.head_tail lines 100) a,
          apply-Within inp.head_tail lines 100,
          refl,
        )

module _ (compile : Regexp) (ctx : Context) (inp : GetParams) where
  get_args-Ensures :
      DbCommand inp.database (get_db_command inp.database)
      → IsTable inp.table
      → All (Admits default) inp.columns
      → Ensures (IsPodCall ctx inp.namespace inp.name (GetArgs inp)) (GetArgs inp) (get_args inp)
  unfolding get_args validate_record_name
  get_args-Ensures db table columns = elim (Bool-cases (is_empty inp.record_name)) [
    | inl e ↦ rw e (
        lists _ db table columns (rw (is_empty-eq inp.record_name e) tt)
          (rw (is_empty-eq inp.record_name e) (columns_args_lem inp.database inp.columns _)))
    | inr e ↦ rw e (
        Ensures-lift _ _ _ _ λ _ record_ok.
          lists _ db table columns
            (validate_safe_string-All inp.record_name _ false default record_ok)
            (rw (when_given_lem inp.record_name (inp.record_name ∷ []) e)
              (columns_args_lem inp.database inp.columns _)))
  ]

  get_lines-Ensures :
      (args : List Text)
      → GetArgs inp args
      → Ensures
          (IsPodCall ctx inp.namespace inp.name (GetArgs inp))
          (All IsLine)
          (get_lines ctx inp args)
  unfolding get_lines
  get_lines-Ensures args h = elim (Bool-cases (is_empty inp.record_name)) [
    | inl e ↦ rw e (Ensures-pod_lines ctx inp.namespace inp.name (GetArgs inp) _ _ _ _ h)
    | inr e ↦ rw e (Ensures-pod_lines ctx inp.namespace inp.name (GetArgs inp) _ _ _ _ h)
  ]

  -- Whatever the request and whatever the cluster answers, the command that `Get` runs is
  -- `ovn-nbctl` or `ovn-sbctl`, as the database says, with `[--columns=COLUMNS] list TABLE [RECORD]`: the
  -- table's name is a letter and then letters, digits and underscores, and the columns and the record hold
  -- no shell metacharacters. It runs in the default container of the pod that is asked for. The output is
  -- made of lines that are not blank and match the pattern where there is one, no more than head and tail
  -- allow.
  pub get-Ensures :
      Ensures
        (IsPodCall ctx inp.namespace inp.name (GetArgs inp))
        (λ r. IsOutput compile inp.pattern inp.head_tail r.output)
        (get compile ctx inp)
  unfolding get validate_column_spec
  get-Ensures = Ensures-lift _ _ _ _ λ _ database_ok. Ensures-lift _ _ _ _ λ _ table_ok.
      Ensures-lift _ _ _ _ λ _ columns_ok.
        Ensures-bind _ _ _ (GetArgs inp) _
          (get_args-Ensures (validate_database-DbCommand inp.database database_ok)
            (validate_ovn_table_name-IsTable inp.table table_ok)
            (validate_safe_string-All inp.columns _ true default columns_ok))
          λ args h.
            Ensures-listing compile inp.pattern inp.head_tail _ _ _ _ _ (get_lines-Ensures args h)
              λ lines l. record { lines = _; listing = l; text = refl }

flow_args :
    (datapath : Text)
    → (if not (is_empty datapath)
        then (codes "ovn-sbctl" ∷ codes "lflow-list" ∷ []) ++ (datapath ∷ [])
        else codes "ovn-sbctl" ∷ codes "lflow-list" ∷ [])
      ≡ codes "ovn-sbctl" ∷ codes "lflow-list" ∷ when_given datapath (datapath ∷ [])
flow_args [] = refl
flow_args (c ∷ s) = refl

module _ (compile : Regexp) (ctx : Context) (inp : LogicalFlowListParams) where
  -- Whatever the request and whatever the cluster answers, the command that `ListLogicalFlows` runs is
  -- `ovn-sbctl lflow-list [DATAPATH]` with a datapath without shell metacharacters, in the default
  -- container of the pod that is asked for. The flows are lines that are not blank and match the pattern
  -- where there is one, no more of them than head and tail allow.
  pub list_logical_flows-Ensures :
      Ensures
        (IsPodCall ctx inp.namespace inp.name (LogicalFlowArgs inp))
        (λ r. IsListing compile inp.pattern inp.head_tail r.flows)
        (list_logical_flows compile ctx inp)
  unfolding list_logical_flows
  list_logical_flows-Ensures = Ensures-lift _ _ _ _ λ _ datapath_ok.
      Ensures-listing compile inp.pattern inp.head_tail _ _ _ _ _
        (Ensures-pod_lines ctx inp.namespace inp.name (LogicalFlowArgs inp) _ _ _ _
          (lists_flows (given_datapath inp.datapath datapath_ok) (flow_args inp.datapath)))
        λ lines l. l

module _ (compile : Regexp) (ctx : Context) (inp : OvnTraceParams) where
  -- Whatever the request and whatever the cluster answers, the command that `Trace` runs is
  -- `ovn-trace [FLAG] DATAPATH MICROFLOW` in the default container of the pod that is asked for: the flag
  -- is the one of the mode, the detailed one by default and none for an unknown mode, the datapath holds
  -- no shell metacharacters and the microflow none but brackets and ampersands. The output is made of lines
  -- that are not blank and match the pattern where there is one, no more than head and tail allow.
  pub trace-Ensures :
      Ensures
        (IsPodCall ctx inp.namespace inp.name (TraceArgs inp))
        (λ r. IsOutput compile inp.pattern inp.head_tail r.output)
        (trace compile ctx inp)
  unfolding trace validate_datapath validate_microflow
  trace-Ensures = Ensures-lift _ _ _ _ λ _ datapath_ok. Ensures-lift _ _ _ _ λ _ microflow_ok.
      Ensures-listing compile inp.pattern inp.head_tail _ _ _ _ _
        (Ensures-pod_lines ctx inp.namespace inp.name (TraceArgs inp) _ _ _ _ (
          traces (mode_args inp.mode) (mode_args-ModeFlag inp.mode)
            (validate_safe_string-IsSafe inp.datapath _ default datapath_ok)
            (validate_safe_string-IsSafe inp.microflow _ allow_brackets_allow_amp microflow_ok)
            refl))
        λ lines l. record { lines = _; listing = l; text = refl }
