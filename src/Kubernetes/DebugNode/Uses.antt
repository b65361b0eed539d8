-- ===== src/Kubernetes/DebugNode/Uses.antt =====
-- Programs that use a debug pod and then delete it, as the rest of `DebugNode` is once the pod exists.
use ovn_kubernetes_mcp.Prelude.{
  Error, not, reject_if, String, wrap, ◌≡◌, ℕ, List, [], ◌∷◌, ◌++◌, All, Result, ok, err,
  Bool-cases, inl, inr,
}
use ovn_kubernetes_mcp.Text.{Text, codes, text_eq}
use ovn_kubernetes_mcp.Exec.{Context}
use ovn_kubernetes_mcp.Kubernetes.Api.{
  wrapped, PodStatus, Request, Answer, Event, get_logs, server_resources, rest_mapping, get_object,
  list_objects, create_pod, get_pod, delete_pod, exec_pod, Tree, leaf, send, Client, ◌>>=◌, attempt,
  events,
}
use ovn_kubernetes_mcp.Kubernetes.DebugNode.{
  poll_ctx, polled, exec_fetched, cleanup_ctx, exec_in_pod, poll_running, pod_running,
}

-- What may be asked of the pod while it exists: to read it, to read it while it is waited for, for which
-- there is a minute at most, and to run the command in its container.
pub data IsUse (ctx : Context) (namespace name : Text) (command : List Text)
    : Request → Type 0 where
  reads : IsUse ctx namespace name command (get_pod ctx namespace name)
  waits :
      (started : ℕ)
      → IsUse ctx namespace name command (get_pod (poll_ctx started ctx) namespace name)
  executes : IsUse ctx namespace name command (
      exec_pod (record {
        ctx = ctx;
        name = name;
        namespace = namespace;
        container = codes "debug-container";
        command = command;
      }))

module _ (later : ℕ) (ctx : Context) (namespace name : Text) (command : List Text) where
  -- Only uses.
  abbrev Uses : {A : Type 0} → Tree A → Type 0
  Uses (leaf a) = Unit
  Uses (send r k) = IsUse ctx namespace name command r × ((a : Answer r) → Uses (k a))

  -- Uses, and then the deletion as the last request.
  abbrev pub Owes : {A : Type 0} → Tree A → Type 0
  Owes (leaf a) = ⊥
  Owes (send (create_pod c n p) k) = ⊥
  Owes (send (get_logs c o) k) = ⊥
  Owes (send (server_resources g v) k) = ⊥
  Owes (send (rest_mapping g) k) = ⊥
  Owes (send (get_object c r n p) k) = ⊥
  Owes (send (list_objects c r n l) k) = ⊥
  Owes (send (get_pod c n p) k) =
      IsUse ctx namespace name command (get_pod c n p) × ((a : Answer (get_pod c n p)) → Owes (k a))
  Owes (send (exec_pod o) k) =
      IsUse ctx namespace name command (exec_pod o) × ((a : Answer (exec_pod o)) → Owes (k a))
  Owes {A} (send (delete_pod c n p) k) =
      (c ≡ cleanup_ctx later)
      × (n ≡ namespace)
      × (p ≡ name)
      × ((a : Result (Unit {0})) → (b : A) × (k a ≡ leaf b))

  Owes-use :
      {A : Type 0} (r : Request) (k : Answer r → Tree A)
      → IsUse ctx namespace name command r
      → ((a : Answer r) → Owes (k a))
      → Owes (send r k)
  Owes-use _ k reads h = (reads, h)
  Owes-use _ k (waits started) h = (waits started, h)
  Owes-use _ k executes h = (executes, h)

  -- Uses before what owes, with the error of the uses as a value.
  pub Owes-attempt :
      {A B : Type 0} (m : Client A) (f : Result A → Client B)
      → Uses m
      → ((r : Result A) → Owes (f r))
      → Owes (attempt m >>= f)
  unfolding attempt ◌>>=◌
  Owes-attempt (leaf r) f u h = h r
  Owes-attempt (send r k) f (u, v) h = Owes-use r _ u λ a. Owes-attempt (k a) f (v a) h

  pub Owes-attempt_then :
      {A B C : Type 0} (m : Client A) (f : Result A → Client B) (g : B → Client C)
      → Uses m
      → ((r : Result A) → Owes (f r >>= g))
      → Owes (attempt m >>= f >>= g)
  unfolding attempt ◌>>=◌
  Owes-attempt_then (leaf r) f g u h = h r
  Owes-attempt_then (send r k) f g (u, v) h =
      Owes-use r _ u λ a. Owes-attempt_then (k a) f g (v a) h

  Uses-lift :
      {A B : Type 0} (r : Result A) (f : A → Client B)
      → ((a : A) → Uses (f a))
      → Uses (leaf r >>= f)
  unfolding ◌>>=◌
  Uses-lift (ok a) f h = h a
  Uses-lift (err e) f h = tt

  polled-Uses : (rest : Client (Unit {0})) (a : Result PodStatus) → Uses rest → Uses (polled rest a)
  polled-Uses rest (err e) h = tt
  polled-Uses rest (ok pod) h = elim (Bool-cases (text_eq pod.phase pod_running)) [
    | inl e ↦ rw e tt
    | inr e ↦ rw e h
  ]

  pub poll_running-Uses :
      (timed_out : Error) (started polls : ℕ)
      → Uses (poll_running timed_out polls (poll_ctx started ctx) namespace name)
  unfolding poll_running
  poll_running-Uses timed_out started ℕ.zero = tt
  poll_running-Uses timed_out started (ℕ.suc polls) =
      (waits started, λ a. polled-Uses _ a (poll_running-Uses timed_out started polls))

  wrapped-Uses :
      {A : Type 0} (format : String) (args : List Text) (r : Result A)
      → Uses (wrapped format args r)
  wrapped-Uses format args (ok a) = tt
  wrapped-Uses format args (err e) = tt

  exec_fetched-Uses :
      (pod : PodStatus)
      → Uses (exec_fetched ctx name namespace (codes "debug-container") command pod)
  unfolding exec_fetched ◌>>=◌
  exec_fetched-Uses pod =
      Uses-lift (reject_if (not (text_eq pod.phase pod_running)) _) _
        λ _. (executes, λ a. wrapped-Uses "failed to execute command %v in pod: %w" command a)

  pub exec_in_pod-Uses : Uses (exec_in_pod ctx name namespace (codes "debug-container") command)
  unfolding exec_in_pod ◌>>=◌
  exec_in_pod-Uses = (reads, λ a. Uses-lift (wrap _ _ a) _ exec_fetched-Uses)

  pub Owes-events :
      {A : Type 0} (answer : List Event → (r : Request) → Answer r) (past : List Event) (m : Tree A)
      → Owes m
      → (uses : List Event) × (a : Result (Unit {0})) × All
          (λ e. IsUse ctx namespace name command e.0)
          uses
        × (events answer past m ≡ uses ++ ((delete_pod (cleanup_ctx later) namespace name, a) ∷ []))
  unfolding events
  Owes-events answer past (leaf a) h = absurd h
  Owes-events answer past (send (create_pod c n p) k) h = absurd h
  Owes-events answer past (send (get_logs c o) k) h = absurd h
  Owes-events answer past (send (server_resources g v) k) h = absurd h
  Owes-events answer past (send (rest_mapping g) k) h = absurd h
  Owes-events answer past (send (get_object c r n p) k) h = absurd h
  Owes-events answer past (send (list_objects c r n l) k) h = absurd h
  Owes-events answer past (send (get_pod c n p) k) (u, h) =
      let (uses, a, all, e) =
        Owes-events answer (past ++ ((get_pod c n p, answer past (get_pod c n p)) ∷ []))
          (k (answer past (get_pod c n p))) (h (answer past (get_pod c n p))) in
      ((get_pod c n p, answer past (get_pod c n p)) ∷ uses, a, (u, all), rw e)
  Owes-events answer past (send (exec_pod o) k) (u, h) =
      let (uses, a, all, e) =
        Owes-events answer (past ++ ((exec_pod o, answer past (exec_pod o)) ∷ []))
          (k (answer past (exec_pod o))) (h (answer past (exec_pod o))) in
      ((exec_pod o, answer past (exec_pod o)) ∷ uses, a, (u, all), rw e)
  Owes-events answer past (send (delete_pod c n p) k) (ec, en, ep, h) =
      let (b, f) = h (answer past (delete_pod c n p)) in
      ([], answer past (delete_pod c n p), tt, rw (f, ec, en, ep))
