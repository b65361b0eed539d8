-- ===== src/Ovn/Args.antt =====
-- The argument vectors of the handlers of pkg/ovn/mcp/mcp.go.
use ovn_kubernetes_mcp.Ovn.Validate.Laws.{IsTable, DbCommand, IsSafe}
use ovn_kubernetes_mcp.Prelude.{
  ◌≡◌, ◌≢◌, refl, inl, inr, false, Bool-cases, List, [], ◌∷◌, ◌++◌, All, arith, is_empty,
  is_empty-eq,
}
use ovn_kubernetes_mcp.Text.{Text, codes, text_eq}
use ovn_kubernetes_mcp.Text.Laws.{text_eq_iff}
use ovn_kubernetes_mcp.Utils.CommandBuilder.{when_given}
use ovn_kubernetes_mcp.Utils.Validate.{default, allow_brackets_allow_amp}
use ovn_kubernetes_mcp.Utils.Validate.Laws.{Admits}
use ovn_kubernetes_mcp.Ovn.Types.{
  ShowParams, GetParams, LogicalFlowListParams, OvnTraceParams, trace_mode_detailed,
  trace_mode_summary, trace_mode_minimal,
}
use ovn_kubernetes_mcp.Ovn.Validate.{get_db_command}
use ovn_kubernetes_mcp.Ovn.Handlers.{columns_args, mode_args}

-- `ovn-nbctl show` or `ovn-sbctl show`.
pub data ShowArgs (inp : ShowParams) : List Text → Type 0 where
  shows : {cmd : Text} → DbCommand inp.database cmd → ShowArgs inp (cmd ∷ codes "show" ∷ [])

-- `ovn-nbctl [--columns=COLUMNS] list TABLE [RECORD]`, or the same with `ovn-sbctl`.
pub data GetArgs (inp : GetParams) (args : List Text) : Type 0 where
  lists :
      (cmd : Text)
      → DbCommand inp.database cmd
      → IsTable inp.table
      → All (Admits default) inp.columns
      → All (Admits default) inp.record_name
      → args
        ≡ cmd
          ∷ (when_given inp.columns ((codes "--columns=" ++ inp.columns) ∷ [])
              ++ (codes "list" ∷ inp.table ∷ when_given inp.record_name (inp.record_name ∷ [])))
      → GetArgs inp args

-- `ovn-sbctl lflow-list [DATAPATH]`.
pub data LogicalFlowArgs (inp : LogicalFlowListParams) (args : List Text) : Type 0 where
  lists_flows :
      All (Admits default) inp.datapath
      → args ≡ codes "ovn-sbctl" ∷ codes "lflow-list" ∷ when_given inp.datapath (inp.datapath ∷ [])
      → LogicalFlowArgs inp args

-- The flag of a mode: the detailed one by default, and none for a mode that is not known.
pub data ModeFlag : Text → List Text → Type 0 where
  summary : ModeFlag (codes "summary") (codes "--summary" ∷ [])
  minimal : ModeFlag (codes "minimal") (codes "--minimal" ∷ [])
  detailed : ModeFlag (codes "detailed") (codes "--detailed" ∷ [])
  by_default : ModeFlag [] (codes "--detailed" ∷ [])
  unknown :
      {mode : Text}
      → mode ≢ codes "summary"
      → mode ≢ codes "minimal"
      → mode ≢ codes "detailed"
      → mode ≢ []
      → ModeFlag mode []

-- `ovn-trace [FLAG] DATAPATH MICROFLOW`.
pub data TraceArgs (inp : OvnTraceParams) (args : List Text) : Type 0 where
  traces :
      (flags : List Text)
      → ModeFlag inp.mode flags
      → IsSafe default inp.datapath
      → IsSafe allow_brackets_allow_amp inp.microflow
      → args ≡ codes "ovn-trace" ∷ (flags ++ (inp.datapath ∷ inp.microflow ∷ []))
      → TraceArgs inp args

differs : (s t : Text) → text_eq s t ≡ false → s ≢ t
differs s t h e = ground (arith, text_eq_iff s t)

pub mode_args-ModeFlag : (mode : Text) → ModeFlag mode (mode_args mode)
unfolding mode_args
mode_args-ModeFlag mode = elim (Bool-cases (text_eq mode trace_mode_summary)) [
  | inl e ↦ rw (e, (text_eq_iff mode trace_mode_summary).0 e) summary
  | inr e ↦ elim (Bool-cases (text_eq mode trace_mode_minimal)) [
    | inl f ↦ rw (e, f, (text_eq_iff mode trace_mode_minimal).0 f) minimal
    | inr f ↦ elim (Bool-cases (text_eq mode trace_mode_detailed)) [
      | inl g ↦ rw (e, f, g, (text_eq_iff mode trace_mode_detailed).0 g) detailed
      | inr g ↦ elim (Bool-cases (is_empty mode)) [
        | inl k ↦ rw (e, f, g, k) (rw (is_empty-eq mode k) by_default)
        | inr k ↦
            rw (e, f, g, k)
              (unknown (differs mode _ e) (differs mode _ f) (differs mode _ g) λ a. ground arith)
      ]
    ]
  ]
]

pub columns_args_lem :
    (database columns : Text) (rest : List Text)
    → columns_args database columns ++ rest
      ≡ get_db_command database
        ∷ (when_given columns ((codes "--columns=" ++ columns) ∷ []) ++ rest)
unfolding columns_args
columns_args_lem database [] rest = refl
columns_args_lem database (c ∷ s) rest = refl
