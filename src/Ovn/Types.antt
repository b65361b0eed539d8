-- ===== src/Ovn/Types.antt =====
-- pkg/ovn/types/command.go. A database and a trace mode are strings, as in the source. The embedded
-- `NamespacedNameParams` of pkg/kubernetes/types is spread into its two fields.
use ovn_kubernetes_mcp.Prelude.{List}
use ovn_kubernetes_mcp.Text.{Text, codes}
use ovn_kubernetes_mcp.Utils.HeadTail.{HeadTailParams}
use ovn_kubernetes_mcp.Utils.Pattern.{PatternParams}

abbrev pub northbound_db : Text
northbound_db = codes "nbdb"

abbrev pub southbound_db : Text
southbound_db = codes "sbdb"

abbrev pub trace_mode_detailed : Text
trace_mode_detailed = codes "detailed"

abbrev pub trace_mode_summary : Text
trace_mode_summary = codes "summary"

abbrev pub trace_mode_minimal : Text
trace_mode_minimal = codes "minimal"

pub record ShowParams : Type 0 where
  pub namespace : Text
  pub name : Text
  pub database : Text
  pub head_tail : HeadTailParams

pub record ShowResult : Type 0 where
  pub database : Text
  pub output : Text

pub record LogicalFlowListParams : Type 0 where
  pub namespace : Text
  pub name : Text
  pub datapath : Text
  pub pattern : PatternParams
  pub head_tail : HeadTailParams

pub record LogicalFlowListResult : Type 0 where
  pub datapath : Text
  pub flows : List Text

pub record OvnTraceParams : Type 0 where
  pub namespace : Text
  pub name : Text
  pub datapath : Text
  pub microflow : Text
  pub mode : Text
  pub pattern : PatternParams
  pub head_tail : HeadTailParams

pub record OvnTraceResult : Type 0 where
  pub datapath : Text
  pub microflow : Text
  pub output : Text

pub record GetParams : Type 0 where
  pub namespace : Text
  pub name : Text
  pub database : Text
  pub table : Text
  pub record_name : Text
  pub columns : Text
  pub pattern : PatternParams
  pub head_tail : HeadTailParams

pub record GetResult : Type 0 where
  pub database : Text
  pub table : Text
  pub record_name : Text
  pub output : Text
