-- ===== src/Tests/UtilTests.antt =====
-- The utilities on concrete values.
use ovn_kubernetes_mcp.Prelude.{
  none, ◌≡◌, ◌≢◌, ◌↔◌, ◌⊎◌, refl, [], ◌∷◌, ◌++◌, ◌*◌, List, some, All, ok, true, false, min, arith,
}
use ovn_kubernetes_mcp.Prelude.Int.{pos}
use ovn_kubernetes_mcp.Text.{Text, codes, split}
use ovn_kubernetes_mcp.Exec.{pod_exec, call, M, Context, done}
use ovn_kubernetes_mcp.Utils.Validate.{validate_safe_string, validate_path, find_unsafe, default}
use ovn_kubernetes_mcp.Utils.Validate.Laws.{Admits, validate_safe_string_iff}
use ovn_kubernetes_mcp.Utils.Validate.Paths.{
  IsSafePath, validate_path_iff, validate_path_down, follow,
}
use ovn_kubernetes_mcp.Utils.HeadTail.{HeadTailParams, apply}
use ovn_kubernetes_mcp.Utils.HeadTail.Laws.{IsWindow, apply-IsWindow}
use ovn_kubernetes_mcp.Utils.Pattern.{execute_with_match}
use ovn_kubernetes_mcp.Utils.Pattern.Laws.{Matches, execute_with_match-Matches}
use ovn_kubernetes_mcp.Utils.Timeout.{second, max_timeout, to_duration}
use ovn_kubernetes_mcp.Utils.Timeout.Laws.{to_duration_exact}
use ovn_kubernetes_mcp.Tests.Samples.{thirty_seconds, literal, priority}

abbrev filter : Text
filter = codes "-p tcp --dport 443"

validate_safe_string_iff_example :
    (validate_safe_string filter (codes "filter") true default ≡ ok tt)
    ↔ (((filter ≡ []) × (true ≡ true)) ⊎ ((filter ≢ []) × All (Admits default) filter))
validate_safe_string_iff_example = validate_safe_string_iff filter (codes "filter") true default

abbrev debug_path : Text
debug_path = codes "/sys/kernel/debug"

validate_path_iff_example :
    (validate_path debug_path (codes "hostPath") true ≡ ok tt)
    ↔ (((debug_path ≡ []) × (true ≡ true)) ⊎ IsSafePath debug_path)
validate_path_iff_example = validate_path_iff debug_path (codes "hostPath") true

debug_path_accepted : validate_path debug_path (codes "hostPath") true ≡ ok tt
unfolding validate_path split find_unsafe
debug_path_accepted = refl

validate_path_down_example :
    (deeper : List Text) × (follow (codes "host" ∷ []) (split debug_path b'/')
      ≡ deeper ++ (codes "host" ∷ []))
validate_path_down_example =
    validate_path_down debug_path (codes "hostPath") true (codes "host" ∷ []) debug_path_accepted

abbrev three_lines : List Text
three_lines = codes "a" ∷ codes "b" ∷ codes "c" ∷ []

abbrev two_then_one : HeadTailParams
two_then_one = record { head = pos 2; tail = pos 1; apply_tail_first = false }

apply-IsWindow_example : IsWindow two_then_one 100 (apply two_then_one three_lines 100) three_lines
apply-IsWindow_example = apply-IsWindow two_then_one three_lines 100

abbrev flows_of : M (List Text)
flows_of =
    call
      (pod_exec (record {
        ctx = record { deadline = none };
        namespace = codes "ovn-kubernetes";
        name = codes "ovnkube-node-abcde";
        container = codes "ovn-controller";
        command = codes "ovs-ofctl" ∷ codes "dump-flows" ∷ codes "br-int" ∷ [];
      }))
      (λ reply. done (split reply.stdout b'\n'))

execute_with_match-Matches_example :
    Matches literal priority flows_of true (execute_with_match literal priority flows_of true)
execute_with_match-Matches_example = execute_with_match-Matches literal priority flows_of true

to_duration_exact_example : to_duration thirty_seconds ≡ pos (min (30 * second) max_timeout)
to_duration_exact_example = to_duration_exact thirty_seconds (omega arith)

abbrev due_at_hundred : Context
due_at_hundred = record { deadline = some 100 }
