-- ===== src/Kubernetes/DebugNode/Cleanup.antt =====
-- Every debug pod that is created is deleted.
use ovn_kubernetes_mcp.Kubernetes.DebugNode.Uses.{
  exec_in_pod-Uses, poll_running-Uses, Owes-attempt, Owes-events, Owes-attempt_then, IsUse, Owes,
}
use ovn_kubernetes_mcp.Prelude.{Error, ◌≡◌, refl, ℕ, List, [], ◌∷◌, ◌++◌, All, Result, ok, err}
use ovn_kubernetes_mcp.Text.{Text, codes}
use ovn_kubernetes_mcp.Exec.{DebugNode, Context}
use ovn_kubernetes_mcp.Kubernetes.Api.{
  get_logs, server_resources, rest_mapping, get_object, list_objects, wrapped, Request, Answer,
  Event, DebugPod, create_pod, get_pod, delete_pod, exec_pod, leaf, send, Client, ◌>>=◌, ◌>>◌,
  attempt, events,
}
use ovn_kubernetes_mcp.Kubernetes.DebugNode.{
  poll_ctx, Wait, or_else, debug_namespace, debug_ctx, create_debug_pod, debug_pod,
  run_in_debug_pod, debug_node_command, cleanup_pod, cleanup_ctx, exec_in_pod, poll_running,
  running_or_cleaned,
}

-- The events of a run: none; or a creation that failed; or a creation, uses of the created pod, and
-- its deletion at the end.
pub data IsBalanced (later : ℕ) (ctx : Context) (namespace : Text) (pod : DebugPod)
    (command : List Text) : List Event → Type 0 where
  nothing : IsBalanced later ctx namespace pod command []
  not_created :
      (a : Answer (create_pod ctx namespace pod))
      → IsBalanced later ctx namespace pod command ((create_pod ctx namespace pod, a) ∷ [])
  deleted :
      (name : Text) (uses : List Event) (a : Result (Unit {0}))
      → All (λ e. IsUse ctx namespace name command e.0) uses
      → IsBalanced later ctx namespace pod command (
          (create_pod ctx namespace pod, ok name)
          ∷ (uses ++ ((delete_pod (cleanup_ctx later) namespace name, a) ∷ [])))

-- A program that sends nothing, or creates a pod and then owes its deletion.
abbrev Cleans : {A : Type 0} → ℕ → Context → Text → DebugPod → List Text → Client A → Type 0
Cleans later ctx namespace pod command (leaf a) = Unit
Cleans later ctx namespace pod command (send (get_pod c n p) k) = ⊥
Cleans later ctx namespace pod command (send (delete_pod c n p) k) = ⊥
Cleans later ctx namespace pod command (send (exec_pod o) k) = ⊥
Cleans later ctx namespace pod command (send (get_logs c o) k) = ⊥
Cleans later ctx namespace pod command (send (server_resources g v) k) = ⊥
Cleans later ctx namespace pod command (send (rest_mapping g) k) = ⊥
Cleans later ctx namespace pod command (send (get_object c r n p) k) = ⊥
Cleans later ctx namespace pod command (send (list_objects c r n l) k) = ⊥
Cleans {A} later ctx namespace pod command (send (create_pod c n p) k) =
    (c ≡ ctx)
    × (n ≡ namespace)
    × (p ≡ pod)
    × ((e : Error) → (b : Result A) × (k (err e) ≡ leaf b))
    × ((name : Text) → Owes later ctx namespace name command (k (ok name)))

module _ (later : ℕ) (ctx : Context) (namespace : Text) (pod : DebugPod) (command : List Text) where
  Cleans-lift :
      {A B : Type 0} (r : Result A) (f : A → Client B)
      → ((a : A) → Cleans later ctx namespace pod command (f a))
      → Cleans later ctx namespace pod command (leaf r >>= f)
  unfolding ◌>>=◌
  Cleans-lift (ok a) f h = h a
  Cleans-lift (err e) f h = tt

  created-IsBalanced :
      {A : Type 0} (answer : List Event → (r : Request) → Answer r) (k : Result Text → Client A)
      (a : Result Text)
      → ((e : Error) → (b : Result A) × (k (err e) ≡ leaf b))
      → ((name : Text) → Owes later ctx namespace name command (k (ok name)))
      → IsBalanced later ctx namespace pod command (
          (create_pod ctx namespace pod, a)
          ∷ events answer ((create_pod ctx namespace pod, a) ∷ []) (k a))
  unfolding events
  created-IsBalanced answer k (err e) none_left owes =
      let (b, f) = none_left e in rw f (not_created (err e))
  created-IsBalanced answer k (ok name) none_left owes =
      let (uses, a, all, e) =
        Owes-events later ctx namespace name command answer
          ((create_pod ctx namespace pod, ok name) ∷ []) (k (ok name)) (owes name) in
      rw e (deleted name uses a all)

  Cleans-IsBalanced :
      {A : Type 0} (answer : List Event → (r : Request) → Answer r) (m : Client A)
      → Cleans later ctx namespace pod command m
      → IsBalanced later ctx namespace pod command (events answer [] m)
  unfolding events
  Cleans-IsBalanced answer (leaf a) h = nothing
  Cleans-IsBalanced answer (send (get_pod c n p) k) h = absurd h
  Cleans-IsBalanced answer (send (delete_pod c n p) k) h = absurd h
  Cleans-IsBalanced answer (send (exec_pod o) k) h = absurd h
  Cleans-IsBalanced answer (send (get_logs c o) k) h = absurd h
  Cleans-IsBalanced answer (send (server_resources g v) k) h = absurd h
  Cleans-IsBalanced answer (send (rest_mapping g) k) h = absurd h
  Cleans-IsBalanced answer (send (get_object c r n p) k) h = absurd h
  Cleans-IsBalanced answer (send (list_objects c r n l) k) h = absurd h
  Cleans-IsBalanced answer (send (create_pod c n p) k) (ec, en, ep, none_left, owes) =
      rw (ec, en, ep)
        (created-IsBalanced answer k (answer [] (create_pod ctx namespace pod)) none_left owes)

-- The steps behind the wait.
after_wait :
    (later : ℕ) (ctx : Context) (namespace name : Text) (command : List Text)
    (waited : Result (Unit {0}))
    → Owes later ctx namespace name command (
        running_or_cleaned later namespace name waited >>= λ n.
        attempt (exec_in_pod ctx n namespace (codes "debug-container") command) >>= λ out.
        cleanup_pod later namespace n
        >> wrapped "failed to execute command in debug pod: %w" [] out)
unfolding ◌>>=◌
after_wait later ctx namespace name command (ok u) =
    Owes-attempt later ctx namespace name command _ _
      (exec_in_pod-Uses later ctx namespace name command) λ out. (refl, refl, refl, λ a. (_, refl))
after_wait later ctx namespace name command (err e) = (refl, refl, refl, λ a. (_, refl))

-- The steps behind the creation.
after_creation :
    (wait : Wait) (later : ℕ) (ctx : Context) (namespace name : Text) (command : List Text)
    → Owes later ctx namespace name command (
        attempt (poll_running wait.timed_out wait.polls (poll_ctx wait.started ctx) namespace name)
        >>= running_or_cleaned later namespace name
        >>= λ n. attempt (exec_in_pod ctx n namespace (codes "debug-container") command) >>= λ out.
            cleanup_pod later namespace n
            >> wrapped "failed to execute command in debug pod: %w" [] out)
unfolding ◌>>=◌
after_creation wait later ctx namespace name command =
    Owes-attempt_then later ctx namespace name command _ _ _
      (poll_running-Uses later ctx namespace name command wait.timed_out wait.started wait.polls)
      λ waited. after_wait later ctx namespace name command waited

-- The pod that `DebugNode` asks for.
abbrev pub pod_of : DebugNode → DebugPod
pod_of c =
    debug_pod c.node (debug_namespace c) c.image (or_else c.host_path (codes "/"))
      (or_else c.mount_path (codes "/host"))

run_in_debug_pod-Cleans :
    (wait : Wait) (later : ℕ) (ctx : Context) (c : DebugNode)
    → Cleans later ctx
        (debug_namespace c)
        (pod_of c)
        c.command
        (run_in_debug_pod wait later ctx (debug_namespace c) c)
unfolding run_in_debug_pod create_debug_pod ◌>>=◌
run_in_debug_pod-Cleans wait later ctx c = (
  refl,
  refl,
  refl,
  λ e. (_, refl),
  λ name. after_creation wait later ctx (debug_namespace c) name c.command,
)

-- Whatever the API answers, and however often it is asked whether the pod runs, a call of `DebugNode`
-- sends nothing, or it sends the creation of its debug pod. When the pod is created, its deletion is the
-- last request of the call, sent once and with ten seconds of its own, whatever the requests in between
-- return; those read the pod, or run the command in its container.
pub debug_node_command-IsBalanced :
    (wait : Wait) (now later : ℕ) (c : DebugNode) (answer : List Event → (r : Request) → Answer r)
    → IsBalanced later
        (debug_ctx now c)
        (debug_namespace c)
        (pod_of c)
        c.command
        (events answer [] (debug_node_command wait now later c))
unfolding debug_node_command
debug_node_command-IsBalanced wait now later c answer =
    Cleans-IsBalanced later (debug_ctx now c) (debug_namespace c) (pod_of c) c.command answer _ (
      Cleans-lift later (debug_ctx now c) (debug_namespace c) (pod_of c) c.command _ _ λ _.
        Cleans-lift later (debug_ctx now c) (debug_namespace c) (pod_of c) c.command _ _ λ _.
          Cleans-lift later (debug_ctx now c) (debug_namespace c) (pod_of c) c.command _ _
            λ _. run_in_debug_pod-Cleans wait later (debug_ctx now c) c)
