-- ===== src/Kubernetes/DebugNode.antt =====
-- `DebugNode` and `createPod` of pkg/kubernetes/client/nodes.go and `ExecPod` of
-- pkg/kubernetes/client/pods.go. `wait.PollUntilContextTimeout` of k8s.io/apimachinery asks until its
-- condition is true or fails or the time is up; what it does there is a parameter. `now` is the time
-- of the call, `later` the time of the cleanup.
pub mod Uses
pub mod Cleanup
use ovn_kubernetes_mcp.Prelude.{
  Error, ◌*◌, ℕ, ◌==◌, Bool, true, false, not, List, [], ◌∷◌, ◌++◌, Option, none, if◌then◌else◌,
  is_empty, errorf, wrapf, reject_if, Result, ok, err,
}
use ovn_kubernetes_mcp.Prelude.Int.{pos}
use ovn_kubernetes_mcp.Text.{Text, codes, text_eq}
use ovn_kubernetes_mcp.Exec.{Context, context_with_timeout, DebugNode}
use ovn_kubernetes_mcp.Utils.Validate.{validate_path}
use ovn_kubernetes_mcp.Kubernetes.Api.{
  DebugPod, PodStatus, ExecOptions, create_pod, get_pod, delete_pod, exec_pod, leaf, send, Client,
  ◌>>=◌, ◌>>◌, attempt, wrapped,
}

-- `corev1.PodRunning`
abbrev pub pod_running : Text
pod_running = codes "Running"

abbrev pub second : ℕ
second = 1000000000

-- Without a container, the first of the pod; indexing a pod without containers would panic, which
-- is an error here.
abbrev pub container_or_first : Text → List Text → Result Text
container_or_first [] [] = err (errorf "index out of range [0] with length 0" [])
container_or_first [] (c ∷ cs) = ok c
container_or_first (d ∷ t) cs = ok (d ∷ t)

-- `ExecPod` once the pod is fetched.
unfoldable pub exec_fetched :
    Context → Text → Text → Text → List Text → PodStatus → Client (Text × Text)
exec_fetched ctx name namespace container command pod = do
  leaf (
      reject_if (not (text_eq pod.phase pod_running)) (
        errorf
          "cannot exec and run command %v in a container in a pod that is not running; current phase is %s"
          (command ++ (pod.phase ∷ []))))
  chosen ← leaf (container_or_first container pod.containers)
  send
      (exec_pod (record {
        ctx = ctx;
        name = name;
        namespace = namespace;
        container = chosen;
        command = command;
      }))
      (wrapped "failed to execute command %v in pod: %w" command)

unfoldable pub exec_in_pod : Context → Text → Text → Text → List Text → Client (Text × Text)
exec_in_pod ctx name namespace container command = do
  pod ← send (get_pod ctx namespace name) (wrapped "failed to fetch pod: %w" [])
  exec_fetched ctx name namespace container command pod

abbrev pub or_else : Text → Text → Text
or_else value def = if is_empty value then def else value

abbrev pub debug_pod : Text → Text → Text → Text → Text → DebugPod
debug_pod node namespace image host_path mount_path = record {
  generate_name = codes "debug-node-" ++ (node ++ codes "-");
  namespace = namespace;
  node_name = node;
  restart_policy = codes "Never";
  toleration_operator = codes "Exists";
  host_network = true;
  host_pid = true;
  host_ipc = true;
  volume_path = host_path;
  volume_type = codes "Directory";
  container_name = codes "debug-container";
  image = image;
  command = codes "sleep" ∷ codes "infinity" ∷ [];
  privileged = true;
  run_as_user = 0;
  mount_path = mount_path;
  env = if text_eq host_path (codes "/") then (codes "HOST", mount_path) ∷ [] else [];
}

-- The context of the cleanup: ten seconds from the background context, which has no deadline.
abbrev pub cleanup_ctx : ℕ → Context
cleanup_ctx later = context_with_timeout later (record { deadline = none }) (pos (10 * second))

-- The error of the deletion is only logged.
abbrev pub cleanup_pod : ℕ → Text → Text → Client (Unit {0})
cleanup_pod later namespace name =
    send (delete_pod (cleanup_ctx later) namespace name) (λ _. leaf (ok tt))

-- The condition of the wait, and the rest of the wait when it does not hold.
abbrev pub polled : Client (Unit {0}) → Result PodStatus → Client (Unit {0})
polled rest (err e) = leaf (err e)
polled rest (ok pod) = if text_eq pod.phase pod_running then leaf (ok tt) else rest

-- What the wait for the pod does: when it starts, how often it asks before it gives up, and the error it
-- then returns.
pub record Wait : Type 0 where
  pub started : ℕ
  pub polls : ℕ
  pub timed_out : Error

-- The context that the wait passes to its condition: its own, with a deadline of one minute.
abbrev pub poll_ctx : ℕ → Context → Context
poll_ctx started ctx = context_with_timeout started ctx (pos (60 * second))

unfoldable pub poll_running : Error → ℕ → Context → Text → Text → Client (Unit {0})
poll_running timed_out ℕ.zero ctx namespace name = leaf (err timed_out)
poll_running timed_out (ℕ.suc polls) ctx namespace name =
    let rest = poll_running timed_out polls ctx namespace name in
    send (get_pod ctx namespace name) (polled rest)

-- What follows the wait in `createPod`.
abbrev pub running_or_cleaned : ℕ → Text → Text → Result (Unit {0}) → Client Text
running_or_cleaned later namespace created (ok u) = leaf (ok created)
running_or_cleaned later namespace created (err e) = do
  cleanup_pod later namespace created
  leaf (err (wrapf "debug pod did not reach running state within timeout of 1 minute: %w" [] e))

unfoldable pub create_debug_pod :
    Wait → ℕ → Context → Text → Text → Text → Text → Text → Client Text
create_debug_pod wait later ctx node namespace image host_path mount_path = do
  created ←
      send
        (create_pod ctx namespace (
          debug_pod node namespace image (or_else host_path (codes "/"))
            (or_else mount_path (codes "/host"))))
        (wrapped "failed to create debug pod: %w" [])
  waited ←
      attempt (poll_running wait.timed_out wait.polls (poll_ctx wait.started ctx) namespace created)
  running_or_cleaned later namespace created waited

-- `DebugNode` once its namespace and context are set: the deferred cleanup runs whatever the command
-- returns.
unfoldable pub run_in_debug_pod : Wait → ℕ → Context → Text → DebugNode → Client (Text × Text)
run_in_debug_pod wait later ctx namespace c = do
  name ← create_debug_pod wait later ctx c.node namespace c.image c.host_path c.mount_path
  out ← attempt (exec_in_pod ctx name namespace (codes "debug-container") c.command)
  cleanup_pod later namespace name
  wrapped "failed to execute command in debug pod: %w" [] out

abbrev pub debug_namespace : DebugNode → Text
debug_namespace c = or_else c.namespace (codes "default")

abbrev pub debug_ctx : ℕ → DebugNode → Context
debug_ctx now c = if c.timeout == 0 then c.ctx else context_with_timeout now c.ctx (pos c.timeout)

unfoldable pub debug_node_command : Wait → ℕ → ℕ → DebugNode → Client (Text × Text)
debug_node_command wait now later c = do
  leaf (reject_if (is_empty c.node) (errorf "node name is required" []))
  leaf (validate_path c.host_path (codes "hostPath") true)
  leaf (validate_path c.mount_path (codes "mountPath") true)
  run_in_debug_pod wait later (debug_ctx now c) (debug_namespace c) c
