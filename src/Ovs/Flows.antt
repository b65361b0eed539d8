-- ===== src/Ovs/Flows.antt =====
-- `Ofctl` and `Appctl` of pkg/ovs/mcp/mcp.go and the subcommands that they dispatch to. The result that
-- accompanies an error is left out. `compile` is `regexp.Compile`.
pub mod Allowed
pub mod Completes
use ovn_kubernetes_mcp.Prelude.{ok, true, not, List, [], ◌∷◌, ◌++◌, if◌then◌else◌, is_empty, errorf}
use ovn_kubernetes_mcp.Text.{Text, codes, text_eq, join}
use ovn_kubernetes_mcp.Exec.{Context, M, ◌>>=◌, ◌>>◌, ret, done, fail}
use ovn_kubernetes_mcp.Utils.HeadTail.{HeadTailParams, apply}
use ovn_kubernetes_mcp.Utils.Pattern.{PatternParams, Regexp, execute_with_match}
use ovn_kubernetes_mcp.Pods.{pod_lines}
use ovn_kubernetes_mcp.Utils.Lines.{newline}
use ovn_kubernetes_mcp.Ovs.Types.{
  OfctlParams, OfctlResult, AppctlParams, AppctlResult, ofctl_dump_flows, appctl_dump_conntrack,
  appctl_ofproto_trace,
}
use ovn_kubernetes_mcp.Ovs.Validate.{
  default_max_lines, validate_bridge_name, validate_flow_spec, validate_conntrack_params,
  validate_ofctl_action, validate_appctl_action,
}

-- `if len(additionalParams) > 0 { cmd = append(cmd, additionalParams...) }`
unfoldable pub conntrack_args : List Text → List Text
conntrack_args additional_params =
    let cmd = codes "ovs-appctl" ∷ codes "dpctl/dump-conntrack" ∷ [] in
    if not (is_empty additional_params) then cmd ++ additional_params else cmd

module _ (compile : Regexp) (ctx : Context) where
  unfoldable pub dump_flows : Text → Text → Text → PatternParams → HeadTailParams → M (List Text)
  dump_flows namespace name bridge pattern head_tail = do
    ret (validate_bridge_name bridge)
    flows ←
        execute_with_match compile pattern
          (pod_lines ctx namespace name (codes "ovs-ofctl" ∷ codes "dump-flows" ∷ bridge ∷ [])
            "failed to dump flows for bridge %s on pod %s/%s: %w"
            "failed to dump flows for bridge %s on pod %s/%s: %s" (bridge ∷ namespace ∷ name ∷ []))
          true
    done (apply head_tail flows default_max_lines)

  unfoldable pub dump_conntrack :
      Text → Text → List Text → PatternParams → HeadTailParams → M (List Text)
  dump_conntrack namespace name additional_params pattern head_tail = do
    ret (
        if not (is_empty additional_params)
        then validate_conntrack_params additional_params
        else ok tt)
    entries ←
        execute_with_match compile pattern
          (pod_lines ctx namespace name (conntrack_args additional_params)
            "failed to dump conntrack on pod %s/%s: %w" "failed to dump conntrack on pod %s/%s: %s"
            (namespace ∷ name ∷ []))
          true
    done (apply head_tail entries default_max_lines)

  unfoldable pub dump_ofproto_trace :
      Text → Text → Text → Text → PatternParams → HeadTailParams → M Text
  dump_ofproto_trace namespace name bridge flow pattern head_tail = do
    ret (validate_bridge_name bridge)
    ret (validate_flow_spec flow)
    lines ←
        execute_with_match compile pattern
          (pod_lines ctx namespace name
            (codes "ovs-appctl" ∷ codes "ofproto/trace" ∷ bridge ∷ flow ∷ [])
            "failed to trace flow on bridge %s, pod %s/%s: %w"
            "failed to trace flow on bridge %s, pod %s/%s: %s" (bridge ∷ namespace ∷ name ∷ []))
          true
    done (join (apply head_tail lines default_max_lines) newline)

  -- The switch of `Ofctl`.
  unfoldable pub run_ofctl : OfctlParams → M OfctlResult
  run_ofctl inp =
      if text_eq inp.action ofctl_dump_flows
      then (do
        flows ← dump_flows inp.namespace inp.name inp.bridge inp.pattern inp.head_tail
        done (record { bridge = inp.bridge; flows = flows }))
      else fail (errorf "invalid action %q: must be one of \"dump-flows\"" (inp.action ∷ []))

  unfoldable pub ofctl : OfctlParams → M OfctlResult
  ofctl inp = do ret (validate_ofctl_action inp.action); run_ofctl inp

  -- The switch of `Appctl`.
  unfoldable pub run_appctl : AppctlParams → M AppctlResult
  run_appctl inp =
      if text_eq inp.action appctl_dump_conntrack
      then (do
        entries ←
            dump_conntrack inp.namespace inp.name inp.additional_params inp.pattern inp.head_tail
        done (record { entries = entries; bridge = []; flow = []; output = [] }))
      else if text_eq inp.action appctl_ofproto_trace
      then (do
        output ←
            dump_ofproto_trace inp.namespace inp.name inp.bridge inp.flow inp.pattern inp.head_tail
        done (record { entries = []; bridge = inp.bridge; flow = inp.flow; output = output }))
      else fail (
          errorf "invalid action %q: must be one of \"dpctl/dump-conntrack\", \"ofproto/trace\""
            (inp.action ∷ []))

  unfoldable pub appctl : AppctlParams → M AppctlResult
  appctl inp = do ret (validate_appctl_action inp.action); run_appctl inp
