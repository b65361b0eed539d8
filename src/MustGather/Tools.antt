-- ===== src/MustGather/Tools.antt =====
-- pkg/must-gather/mcp: the handlers of the must-gather tools, and the end of the client's calls that they
-- make, which reads the outcome of the command.
pub mod Runs
use ovn_kubernetes_mcp.Prelude.{
  String, ℕ, Bool, List, [], ◌∷◌, Option, none, some, keep, errorf, wrapf, Result, ok, err,
}
use ovn_kubernetes_mcp.Text.{Text, split}
use ovn_kubernetes_mcp.Exec.{Context}
use ovn_kubernetes_mcp.Files.{Outcome, leaf, Program, ◌>>=◌, ◌>>◌}
use ovn_kubernetes_mcp.Utils.Lines.{newline, strip_empty_lines}
use ovn_kubernetes_mcp.Utils.HeadTail.{HeadTailParams, apply}
use ovn_kubernetes_mcp.Utils.Pattern.{PatternParams, Regexp, pattern_test}
use ovn_kubernetes_mcp.Kubernetes.Output.{
  JsonPathParser, validate_output_params, required, joined_with, no_error,
}
use ovn_kubernetes_mcp.MustGather.Omc.{Session, get_resource_result, list_resources_result}
use ovn_kubernetes_mcp.MustGather.Omc
use ovn_kubernetes_mcp.MustGather.Path.{run_session}

abbrev pub default_max_lines : ℕ
default_max_lines = 100

-- The output of a command that did not fail, as `GetPodLogs` and `GetOvnKInfo` of the client return it.
abbrev pub output_or : String → Outcome → Result Text
output_or format o = elim o.error [
  | none ↦ ok o.output
  | some e ↦ err (wrapf format (o.output ∷ []) e)
]

module _ (parse : JsonPathParser) (compile : Regexp) (ctx : Context) (omc : Text) where
  unfoldable pub get_resource_tool : Text → Text → Text → Text → Text → Program Text
  get_resource_tool path kind namespace name output_type = do
    leaf (
        no_error (
          joined_with
            (required (required none kind (errorf "kind is required" [])) name
              (errorf "name is required" []))
            (validate_output_params parse output_type)))
    s ← leaf (Omc.get_resource path kind namespace name output_type)
    o ← run_session ctx omc s
    leaf (get_resource_result kind name namespace o)

  unfoldable pub list_resources_tool : Text → Text → Text → Text → Text → Program Text
  list_resources_tool path kind namespace label_selector output_type = do
    leaf (
        no_error (
          joined_with (required none kind (errorf "kind is required" []))
            (validate_output_params parse output_type)))
    s ← leaf (Omc.list_resources path kind namespace label_selector output_type)
    o ← run_session ctx omc s
    leaf (list_resources_result output_type o)

  -- The pattern is compiled before the client is called.
  unfoldable pub pod_logs_tool :
      Text → Text → Text → Text → Bool → Bool → PatternParams → HeadTailParams → Program (List Text)
  pod_logs_tool path namespace name container previous rotated p head_tail = do
    leaf (no_error (required none name (errorf "name is required" [])))
    test ← leaf (pattern_test compile p)
    s ← leaf (Omc.get_pod_logs path namespace name container previous rotated)
    o ← run_session ctx omc s
    logs ← leaf (output_or "failed to get pod logs. output: %s, error: %w" o)
    leaf (
        ok (apply head_tail (keep test (strip_empty_lines (split logs newline))) default_max_lines))

  unfoldable pub ovnk_info_tool : Text → Text → Program Text
  ovnk_info_tool path info_type = do
    s ← leaf (Omc.get_ovnk_info path info_type)
    o ← run_session ctx omc s
    leaf (output_or "failed to get ovnk info. output: %s, error: %w" o)
