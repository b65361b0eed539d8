-- ===== src/Pods/Runs.antt =====
-- What `pod_lines` returns from a cluster that answers.
use ovn_kubernetes_mcp.Utils.Pattern.{Regexp, PatternParams, execute_with_match}
use ovn_kubernetes_mcp.Prelude.{
  inr, inl, keep, Bool-cases, is_empty, true, if◌then◌else◌, Bool, arith, [], ◌≡◌, ok, List, String,
}
use ovn_kubernetes_mcp.Text.{Text, split}
use ovn_kubernetes_mcp.Exec.{M, Context, Call, Reply, pod_exec, run, ◌>>=◌}
use ovn_kubernetes_mcp.Exec.Runs.{run->>=, IsHealthy}
use ovn_kubernetes_mcp.Utils.Lines.{newline, strip_empty_lines}
use ovn_kubernetes_mcp.Pods.{pod_lines}

-- A command in the default container of a pod.
abbrev pub in_default : Context → Text → Text → List Text → Call
in_default ctx namespace name command =
    pod_exec
      (record { ctx = ctx; namespace = namespace; name = name; container = []; command = command })

pub run-pod_lines :
    (answer : Call → Reply) (ctx : Context) (namespace name : Text) (command : List Text)
    (wrapped refused : String) (args : List Text)
    → IsHealthy answer
    → run answer (pod_lines ctx namespace name command wrapped refused args)
      ≡ ok (
          strip_empty_lines (split (answer (in_default ctx namespace name command)).stdout newline))
unfolding pod_lines run ◌>>=◌
run-pod_lines answer ctx namespace name command wrapped refused args h =
    let (no_error, no_stderr) = h (in_default ctx namespace name command) in ground arith

-- What `ExecuteWithMatch` keeps of the lines: all without a pattern, else those that match.
abbrev pub kept : PatternParams → (Text → Bool) → List Text → List Text
kept p test lines = if is_empty p.pattern then lines else keep test lines

pub run-execute_with_match :
    (answer : Call → Reply) (compile : Regexp) (p : PatternParams) (test : Text → Bool)
    (m : M (List Text)) {lines : List Text}
    → compile p.pattern ≡ ok test
    → run answer m ≡ ok lines
    → run answer (execute_with_match compile p m true) ≡ ok (kept p test lines)
unfolding execute_with_match run ◌>>=◌
run-execute_with_match answer compile p test m c e = elim (Bool-cases (is_empty p.pattern)) [
  | inl z ↦ rw z e
  | inr z ↦ rw (z, c) (run->>= answer m _ e)
]
