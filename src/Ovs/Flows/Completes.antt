-- ===== src/Ovs/Flows/Completes.antt =====
-- What `Ofctl` of pkg/ovs/mcp/mcp.go returns from a cluster that answers.
use ovn_kubernetes_mcp.Prelude.{◌≡◌, ok, true, Bool, ◌∷◌, [], arith, ◌∙◌}
use ovn_kubernetes_mcp.Text.{Text, split, codes, text_eq}
use ovn_kubernetes_mcp.Exec.{Context, Call, Reply, run, ret}
use ovn_kubernetes_mcp.Exec.Runs.{IsHealthy, run->>=}
use ovn_kubernetes_mcp.Utils.HeadTail.{apply}
use ovn_kubernetes_mcp.Utils.Lines.{newline, strip_empty_lines}
use ovn_kubernetes_mcp.Utils.Pattern.{Regexp}
use ovn_kubernetes_mcp.Pods.Runs.{in_default, run-pod_lines, kept, run-execute_with_match}
use ovn_kubernetes_mcp.Ovs.Types.{OfctlParams, ofctl_dump_flows}
use ovn_kubernetes_mcp.Ovs.Validate.{validate_bridge_name, validate_ofctl_action}
use ovn_kubernetes_mcp.Ovs.Flows.{ofctl, run_ofctl, dump_flows}

-- A request to `Ofctl` whose action and bridge are accepted and whose pattern compiles succeeds when the
-- cluster answers without errors: it returns the lines of the command's output that are not blank and
-- match, cut by head and tail to 100 lines by default.
pub ofctl-completes :
    (compile : Regexp) (ctx : Context) (inp : OfctlParams) (answer : Call → Reply)
    (test : Text → Bool)
    → validate_ofctl_action inp.action ≡ ok tt
    → validate_bridge_name inp.bridge ≡ ok tt
    → compile inp.pattern.pattern ≡ ok test
    → IsHealthy answer
    → run answer (ofctl compile ctx inp)
      ≡ ok (record {
        bridge = inp.bridge;
        flows =
            apply inp.head_tail
              (kept inp.pattern test (
                strip_empty_lines (
                  split
                    (answer (
                      in_default ctx inp.namespace inp.name
                        (codes "ovs-ofctl" ∷ codes "dump-flows" ∷ inp.bridge ∷ []))).stdout
                    newline)))
              100;
      })
unfolding ofctl run_ofctl dump_flows run validate_ofctl_action
ofctl-completes compile ctx inp answer test action_ok bridge_ok compiles healthy =
    let action : text_eq inp.action ofctl_dump_flows ≡ true = ground arith in
    run->>= answer (ret (validate_ofctl_action inp.action)) _ action_ok
    ∙ rw action (
        run->>= answer _ _ (
          run->>= answer (ret (validate_bridge_name inp.bridge)) _ bridge_ok
          ∙ run->>= answer _ _ (
              run-execute_with_match answer compile inp.pattern test _ compiles
                (run-pod_lines answer ctx inp.namespace inp.name _ _ _ _ healthy))))
