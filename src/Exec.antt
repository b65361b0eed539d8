-- ===== src/Exec.antt =====
-- Commands that the tools hand to the cluster. `runDebugNodeCommand` and `runPodExecCommand` are
-- function values that cmd/ovnk-mcp-server/main.go passes in, so a handler is a tree: it returns, or
-- it makes a call and goes on with the answer, whatever the answer is.
pub mod Laws
pub mod Runs
use ovn_kubernetes_mcp.Prelude.{
  ℕ, ◌+◌, ◌-◌, suc, min, List, [], ◌∷◌, Option, none, some, Error, wrapf, Result, ok, err, String,
}
use ovn_kubernetes_mcp.Prelude.Int.{ℤ, pos, negsuc}
use ovn_kubernetes_mcp.Text.{Text}

-- A `context.Context`, as far as its deadline. Times are in nanoseconds.
pub record Context : Type 0 where
  pub deadline : Option ℕ

abbrev pub earlier : Option ℕ → ℕ → ℕ
earlier none t = t
earlier (some d) t = min d t

abbrev pub shift : ℕ → ℤ → ℕ
shift now (pos d) = now + d
shift now (negsuc d) = now - suc d

-- `context.WithTimeout`: the deadline is `now` plus the timeout, unless the parent's is earlier.
abbrev pub context_with_timeout : ℕ → Context → ℤ → Context
context_with_timeout now ctx d = record { deadline = some (earlier ctx.deadline (shift now d)) }

-- The arguments of `runDebugNodeCommand` and of `runPodExecCommand`.
pub record DebugNode : Type 0 where
  pub ctx : Context
  pub namespace : Text
  pub node : Text
  pub image : Text
  pub command : List Text
  pub host_path : Text
  pub mount_path : Text
  pub timeout : ℕ

pub record PodExec : Type 0 where
  pub ctx : Context
  pub namespace : Text
  pub name : Text
  pub container : Text
  pub command : List Text

pub data Call : Type 0 where
  debug_node : DebugNode → Call
  pod_exec : PodExec → Call

abbrev pub command_of : Call → List Text
command_of (debug_node c) = c.command
command_of (pod_exec c) = c.command

abbrev pub ctx_of : Call → Context
ctx_of (debug_node c) = c.ctx
ctx_of (pod_exec c) = c.ctx

pub record Reply : Type 0 where
  pub stdout : Text
  pub stderr : Text
  pub error : Option Error

pub data Prog (A : Type 0) : Type 0 where
  ret : A → Prog A
  call : Call → (Reply → Prog A) → Prog A

-- A handler that may fail.
abbrev pub M : Type 0 → Type 0
M A = Prog (Result A)

infixl 5 ◌>>=◌ ◌>>◌
unfoldable pub ◌>>=◌ : {A B : Type 0} → M A → (A → M B) → M B
ret (ok a) >>= f = f a
ret (err e) >>= f = ret (err e)
call c k >>= f = call c (λ r. k r >>= f)

abbrev pub ◌>>◌ : {B : Type 0} → M (Unit {0}) → M B → M B
m >> n = m >>= λ _. n

abbrev pub done : {A : Type 0} → A → M A
done a = ret (ok a)

abbrev pub fail : {A : Type 0} → Error → M A
fail e = ret (err e)

abbrev pub issue : Call → M Reply
issue c = call c done

-- The error of a step as a value, for a caller that goes on after it.
unfoldable pub attempt : {A : Type 0} → M A → M (Result A)
attempt (ret r) = done r
attempt (call c k) = call c (λ r. attempt (k r))

-- `if err != nil { return fmt.Errorf("...: %w", err) }` after a call.
abbrev pub check_error : String → List Text → Option Error → Result (Unit {0})
check_error format args none = ok tt
check_error format args (some e) = err (wrapf format args e)

abbrev pub check_reply : String → List Text → Reply → Result (Unit {0})
check_reply format args r = check_error format args r.error

unfoldable pub wrap_all : {A : Type 0} → String → List Text → M A → M A
wrap_all format args (ret (ok a)) = ret (ok a)
wrap_all format args (ret (err e)) = ret (err (wrapf format args e))
wrap_all format args (call c k) = call c (λ r. wrap_all format args (k r))

-- A run against answers given in advance: its result, and the calls that it made.
module _ {A : Type 0} (answer : Call → Reply) where
  unfoldable pub run : Prog A → A
  run (ret a) = a
  run (call c k) = run (k (answer c))

  unfoldable pub calls : Prog A → List Call
  calls (ret a) = []
  calls (call c k) = c ∷ calls (k (answer c))
