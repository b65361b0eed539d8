-- ===== src/Tests/ClientTests.antt =====
-- A debug pod that does not start, and calls of the omc client.
use ovn_kubernetes_mcp.Prelude.{
  ℕ, ◌≡◌, refl, [], ◌∷◌, List, none, some, All, ok, err, errorf, true, false,
}
use ovn_kubernetes_mcp.Text.{Text, codes}
use ovn_kubernetes_mcp.Exec.{DebugNode}
use ovn_kubernetes_mcp.Kubernetes.Api.{
  Request, Answer, Event, get_logs, server_resources, rest_mapping, get_object, list_objects,
  create_pod, get_pod, delete_pod, exec_pod, events,
}
use ovn_kubernetes_mcp.Kubernetes.DebugNode.{Wait, debug_node_command, debug_ctx, debug_namespace}
use ovn_kubernetes_mcp.Kubernetes.DebugNode.Cleanup.{
  IsBalanced, pod_of, debug_node_command-IsBalanced,
}
use ovn_kubernetes_mcp.Utils.Validate.{validate_safe_string}
use ovn_kubernetes_mcp.MustGather.Omc.{
  validate_kubernetes_name, validate_label_selector, append_output_type_args, Session, get_resource,
  list_resources, get_pod_logs,
}
use ovn_kubernetes_mcp.MustGather.Omc.Interleaved.{
  World, acquires, selects, fails, runs, Reachable, starts, steps, IsFaithful, log-IsFaithful,
  update, waiting, holding, selected, finished,
}
use ovn_kubernetes_mcp.Tests.Samples.{background}

abbrev list_files : DebugNode
list_files = record {
  ctx = background;
  namespace = [];
  node = codes "worker-0";
  image = codes "netshoot";
  command = codes "ls" ∷ codes "/host" ∷ [];
  host_path = [];
  mount_path = [];
  timeout = 0;
}

-- An API that creates the pod, which stays pending.
abbrev pending : List Event → (r : Request) → Answer r
pending past (create_pod ctx namespace pod) = ok (codes "debug-node-worker-0-x")
pending past (get_pod ctx namespace name) =
    ok (record { phase = codes "Pending"; containers = codes "debug-container" ∷ [] })
pending past (delete_pod ctx namespace name) = ok tt
pending past (exec_pod options) = err (errorf "unreachable" [])
pending past (get_logs ctx options) = err (errorf "unreachable" [])
pending past (server_resources group version) = err (errorf "unreachable" [])
pending past (rest_mapping gvk) = err (errorf "unreachable" [])
pending past (get_object ctx resource namespace name) = err (errorf "unreachable" [])
pending past (list_objects ctx resource namespace selector) = err (errorf "unreachable" [])

abbrev two_polls : Wait
two_polls = record { started = 5; polls = 2; timed_out = errorf "timed out" [] }

debug_node_command-IsBalanced_example :
    IsBalanced 90
      (debug_ctx 0 list_files)
      (debug_namespace list_files)
      (pod_of list_files)
      list_files.command
      (events pending [] (debug_node_command two_polls 0 90 list_files))
debug_node_command-IsBalanced_example =
    debug_node_command-IsBalanced two_polls 0 90 list_files pending

abbrev omc_path : Text
omc_path = codes "/data/must-gather"

abbrev get_node : Session
get_node = record {
  path = omc_path;
  args =
      codes "get"
      ∷ codes "node"
      ∷ codes "worker-0"
      ∷ codes "-n"
      ∷ codes "default"
      ∷ codes "-o"
      ∷ codes "yaml"
      ∷ [];
}

get_resource_run :
    get_resource omc_path (codes "node") [] (codes "worker-0") (codes "yaml") ≡ ok get_node
unfolding get_resource validate_kubernetes_name append_output_type_args
get_resource_run = refl

abbrev list_pods : Session
list_pods = record {
  path = omc_path;
  args =
      codes "get"
      ∷ codes "pod"
      ∷ codes "-l"
      ∷ codes "app=ovnkube-node"
      ∷ codes "-o"
      ∷ codes "json"
      ∷ codes "-A"
      ∷ [];
}

list_resources_run :
    list_resources omc_path (codes "pod") [] (codes "app=ovnkube-node") (codes "json")
    ≡ ok list_pods
unfolding list_resources validate_kubernetes_name validate_label_selector validate_safe_string
    append_output_type_args
list_resources_run = refl

abbrev previous_logs : Session
previous_logs = record {
  path = omc_path;
  args = codes "logs" ∷ codes "web" ∷ codes "-n" ∷ codes "default" ∷ codes "-p" ∷ [];
}

get_pod_logs_run :
    get_pod_logs omc_path (codes "default") (codes "web") [] true false ≡ ok previous_logs
unfolding get_pod_logs validate_kubernetes_name
get_pod_logs_run = refl

abbrev other_path : Text
other_path = codes "/data/other"

-- Call 0 lists pods in one must-gather, every other call reads logs in another.
abbrev two_sessions : ℕ → Session
two_sessions ℕ.zero = list_pods
two_sessions (ℕ.suc n) = record { path = other_path; args = codes "logs" ∷ codes "web" ∷ [] }

-- Call 1 failed before call 0 ran.
abbrev after_both : World
after_both = record {
  lock = none;
  current = some omc_path;
  stage =
      update
        (update (update (update (update (λ i. waiting) 1 holding) 1 finished) 0 holding) 0 selected)
        0 finished;
  log = record { caller = 0; must_gather = some omc_path; args = list_pods.args } ∷ [];
}

both_ran : Reachable two_sessions after_both
both_ran =
    steps
      (steps
        (steps (steps (steps (starts none) (acquires 1 refl refl)) (fails 1 (some other_path) refl))
          (acquires 0 refl refl))
        (selects 0 refl))
      (runs 0 refl)

log-IsFaithful_example : All (IsFaithful two_sessions) after_both.log
log-IsFaithful_example = log-IsFaithful two_sessions both_ran
