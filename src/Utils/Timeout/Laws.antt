-- ===== src/Utils/Timeout/Laws.antt =====
-- What `ToDuration` and `WithTimeout` promise.
use ovn_kubernetes_mcp.Prelude.Int.{pos}
use ovn_kubernetes_mcp.Exec.{context_with_timeout, earlier, Context}
use ovn_kubernetes_mcp.Prelude.{
  ◌*◌, false, refl, min, ◌==◌, ◌≢◌, none, ◌^◌, ◌+◌, arith, some, ◌<◌, Option, ℕ, ◌≡◌, ◌≤◌,
}
use ovn_kubernetes_mcp.Utils.Timeout.{TimeoutParams, second, max_timeout, to_duration, with_timeout}

-- The context expires at `limit` or before.
abbrev pub DueBy : ℕ → Context → Type 0
DueBy limit ctx = (d : ℕ) × (ctx.deadline ≡ some d) × (d ≤ limit)

-- No uint32 of seconds overflows: the duration is the product, cut off at 300 seconds.
pub to_duration_exact :
    (t : TimeoutParams)
    → t.timeout_seconds < 2 ^ 32
    → to_duration t ≡ pos (min (t.timeout_seconds * second) max_timeout)
unfolding to_duration
to_duration_exact t h = ground arith

earlier-le : (o : Option ℕ) (t : ℕ) → earlier o t ≤ t
earlier-le none t = omega arith
earlier-le (some d) t = omega arith

pub context_with_timeout-DueBy :
    (now : ℕ) (ctx : Context) (d : ℕ) → DueBy (now + d) (context_with_timeout now ctx (pos d))
context_with_timeout-DueBy now ctx d =
    (earlier ctx.deadline (now + d), refl, earlier-le ctx.deadline (now + d))

-- A request with a timeout runs under a deadline of that many seconds, and of 300 seconds at most; the
-- deadline of the context around it still holds.
pub with_timeout-DueBy :
    (now : ℕ) (t : TimeoutParams) (ctx : Context) (limit : ℕ)
    → t.timeout_seconds < 2 ^ 32
    → t.timeout_seconds ≢ 0
    → DueBy limit ctx
    → DueBy
        (min limit (now + min (t.timeout_seconds * second) max_timeout))
        (with_timeout now t ctx)
unfolding with_timeout
with_timeout-DueBy now t ctx limit fits set (d, e, le) =
    let positive : (t.timeout_seconds == 0) ≡ false = ground arith in
    rw (positive, to_duration_exact t fits)
      (min d (now + min (t.timeout_seconds * second) max_timeout), rw e, omega arith)

-- Without a timeout of its own a request runs under the context around it.
pub with_timeout_none :
    (now : ℕ) (t : TimeoutParams) (ctx : Context)
    → t.timeout_seconds ≡ 0
    → with_timeout now t ctx ≡ ctx
unfolding with_timeout
with_timeout_none now t ctx e = ground arith

pub with_timeout-DueBy_max :
    (now : ℕ) (t : TimeoutParams) (ctx : Context)
    → t.timeout_seconds < 2 ^ 32
    → t.timeout_seconds ≢ 0
    → DueBy (now + max_timeout) (with_timeout now t ctx)
unfolding with_timeout
with_timeout-DueBy_max now t ctx fits set =
    let positive : (t.timeout_seconds == 0) ≡ false = ground arith in
    let (d, e, le) =
      context_with_timeout-DueBy now ctx (min (t.timeout_seconds * second) max_timeout) in
    rw (positive, to_duration_exact t fits) (d, e, omega arith)
