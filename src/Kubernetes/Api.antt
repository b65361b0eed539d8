-- ===== src/Kubernetes/Api.antt =====
-- The requests that pkg/kubernetes/client sends to the Kubernetes API. The client library is not part
-- of the repository: a program is a tree that sends a request and goes on with the answer, whatever the
-- answer is.
use ovn_kubernetes_mcp.Prelude.{ℕ, List, [], ◌∷◌, ◌++◌, String, Bool, Result, ok, err, wrap}
use ovn_kubernetes_mcp.Text.{Text}
use ovn_kubernetes_mcp.Exec.{Context}

-- The fields of the `corev1.Pod` that `createPod` fills in.
pub record DebugPod : Type 0 where
  pub generate_name : Text
  pub namespace : Text
  pub node_name : Text
  pub restart_policy : Text
  pub toleration_operator : Text
  pub host_network : Bool
  pub host_pid : Bool
  pub host_ipc : Bool
  pub volume_path : Text
  pub volume_type : Text
  pub container_name : Text
  pub image : Text
  pub command : List Text
  pub privileged : Bool
  pub run_as_user : ℕ
  pub mount_path : Text
  pub env : List (Text × Text)

-- What is read of a pod: its phase and the names of its containers.
pub record PodStatus : Type 0 where
  pub phase : Text
  pub containers : List Text

-- The request of `ExecPod`.
pub record ExecOptions : Type 0 where
  pub ctx : Context
  pub name : Text
  pub namespace : Text
  pub container : Text
  pub command : List Text

-- `schema.GroupVersionKind`.
pub record GroupVersionKind : Type 0 where
  pub group : Text
  pub version : Text
  pub kind : Text

-- `metav1.APIResource`, as far as it is read.
pub record ApiResource : Type 0 where
  pub kind : Text
  pub namespaced : Bool

-- `corev1.PodLogOptions` with the pod that they are for; timestamps are always asked for.
pub record LogOptions : Type 0 where
  pub namespace : Text
  pub name : Text
  pub container : Text
  pub timestamps : Bool
  pub previous : Bool

-- `unstructured.Unstructured`: what is read of its metadata, and its content as it stands.
pub record Object : Type 0 where
  pub name : Text
  pub namespace : Text
  pub created : ℕ
  pub labels : List (Text × Text)
  pub annotations : List (Text × Text)
  pub content : Text

-- `unstructured.UnstructuredList`.
pub record ObjectList : Type 0 where
  pub items : List Object
  pub content : Text

-- The resource of a REST mapping, `schema.GroupVersionResource`, as its text.
pub data Request : Type 0 where
  get_logs : Context → LogOptions → Request
  server_resources : Text → Text → Request
  rest_mapping : GroupVersionKind → Request
  get_object : Context → Text → Text → Text → Request
  list_objects : Context → Text → Text → Text → Request
  create_pod : Context → Text → DebugPod → Request
  get_pod : Context → Text → Text → Request
  delete_pod : Context → Text → Text → Request
  exec_pod : ExecOptions → Request

abbrev pub Answer : Request → Type 0
Answer (get_logs ctx options) = Result Text
Answer (server_resources group version) = Result (List ApiResource)
Answer (rest_mapping gvk) = Result Text
Answer (get_object ctx resource namespace name) = Result Object
Answer (list_objects ctx resource namespace label_selector) = Result ObjectList
Answer (create_pod ctx namespace pod) = Result Text
Answer (get_pod ctx namespace name) = Result PodStatus
Answer (delete_pod ctx namespace name) = Result (Unit {0})
Answer (exec_pod options) = Result (Text × Text)

pub data Tree (A : Type 0) : Type 0 where
  leaf : A → Tree A
  send : (r : Request) → (Answer r → Tree A) → Tree A

abbrev pub Client : Type 0 → Type 0
Client A = Tree (Result A)

infixl 5 ◌>>=◌ ◌>>◌
unfoldable pub ◌>>=◌ : {A B : Type 0} → Client A → (A → Client B) → Client B
leaf (ok a) >>= f = f a
leaf (err e) >>= f = leaf (err e)
send r k >>= f = send r (λ a. k a >>= f)

abbrev pub ◌>>◌ : {B : Type 0} → Client (Unit {0}) → Client B → Client B
m >> n = m >>= λ _. n

-- The error of a step as a value, for a caller that goes on after it.
unfoldable pub attempt : {A : Type 0} → Client A → Client (Result A)
attempt (leaf r) = leaf (ok r)
attempt (send r k) = send r (λ a. attempt (k a))

-- A request whose error is wrapped.
abbrev pub wrapped : {A : Type 0} → String → List Text → Result A → Client A
wrapped format args a = leaf (wrap format args a)

-- A request and its answer.
abbrev pub Event : Type 0
Event = (r : Request) × Answer r

-- The requests and answers of a run. An answer may depend on everything that came before it.
unfoldable pub events :
    {A : Type 0} → (List Event → (r : Request) → Answer r) → List Event → Tree A → List Event
events answer past (leaf a) = []
events answer past (send r k) =
    let a = answer past r in (r, a) ∷ events answer (past ++ ((r, a) ∷ [])) (k a)

-- The result of a run against answers given in advance.
unfoldable pub run : {A : Type 0} → ((r : Request) → Answer r) → Tree A → A
run answer (leaf a) = a
run answer (send r k) = run answer (k (answer r))
