-- ===== src/Middleware/Laws.antt =====
-- The timeout middleware around a tool handler.
use ovn_kubernetes_mcp.Middleware.Protocol.{Request}
use ovn_kubernetes_mcp.Prelude.Int.{pos, is_zero}
use ovn_kubernetes_mcp.Text.{codes, Text}
use ovn_kubernetes_mcp.Prelude.{
  ==_iff, refl, arith, ◌*◌, min, suc, ◌≤◌, ◌∙◌, inr, inl, Bool-cases, max, ◌+◌, ◌==◌, zero, ◌^◌,
  Option, ◌<◌, ℕ, ◌≡◌,
}
use ovn_kubernetes_mcp.Exec.{context_with_timeout, Context, M, ctx_of}
use ovn_kubernetes_mcp.Exec.Laws.{Ensures, Anything, Ensures-mono}
use ovn_kubernetes_mcp.Utils.Timeout.{second, TimeoutParams, to_duration, with_timeout, max_timeout}
use ovn_kubernetes_mcp.Utils.Timeout.Laws.{
  with_timeout_none, to_duration_exact, DueBy, context_with_timeout-DueBy, with_timeout-DueBy_max,
}
use ovn_kubernetes_mcp.Middleware.ToolTimeout.{get_timeout_params, tool_timeout}

is_zero_pos : (n : ℕ) → is_zero (pos n) ≡ (n == 0)
is_zero_pos zero = refl
is_zero_pos (suc n) = ground arith

to_duration-zero :
    (t : TimeoutParams)
    → t.timeout_seconds < 2 ^ 32
    → is_zero (to_duration t) ≡ (t.timeout_seconds == 0)
to_duration-zero t fits =
    let seconds : (min (t.timeout_seconds * second) max_timeout == 0) ≡ (t.timeout_seconds == 0) =
      ground arith in
    rw (to_duration_exact t fits) (is_zero_pos _ ∙ seconds)

agreed :
    (unmarshal : Text → Option TimeoutParams) (req : Request) (t : TimeoutParams)
    → t.timeout_seconds < 2 ^ 32
    → get_timeout_params unmarshal req ≡ to_duration t
    → is_zero (get_timeout_params unmarshal req) ≡ (t.timeout_seconds == 0)
agreed unmarshal req t fits agree = rw agree (to_duration-zero t fits)

DueBy-of :
    {c ctx : Context} {limit limit' : ℕ}
    → c ≡ ctx
    → DueBy limit ctx
    → limit ≤ limit'
    → DueBy limit' c
DueBy-of e (d, due, le) more = rw e (d, due, omega arith)

-- A handler whose every call runs under the timeout of its request, as the kernel tools do, makes each
-- call with a deadline: behind the middleware no call is due later than the greater of the server's
-- default timeout and 300 seconds. The timeout in the JSON arguments is taken to be the one that the
-- handler is given.
pub tool_timeout-DueBy :
    {A : Type 0} (unmarshal : Text → Option TimeoutParams) (now timeout : ℕ)
    (next : Context → Text → Request → M A) (ctx : Context) (req : Request) (t : TimeoutParams)
    → t.timeout_seconds < 2 ^ 32
    → get_timeout_params unmarshal req ≡ to_duration t
    → ((c : Context)
        → Ensures (λ k. ctx_of k ≡ with_timeout now t c) Anything (next c (codes "tools/call") req))
    → Ensures
        (λ k. DueBy (now + max timeout max_timeout) (ctx_of k))
        Anything
        (tool_timeout unmarshal now (pos timeout) next ctx (codes "tools/call") req)
unfolding tool_timeout
tool_timeout-DueBy unmarshal now timeout next ctx req t fits agree calls =
    elim (Bool-cases (t.timeout_seconds == 0)) [
      | inl e ↦
          let zero_timeout = agreed unmarshal req t fits agree ∙ e in
          rw zero_timeout (
            Ensures-mono _ _ Anything _
              (λ k under.
                DueBy-of (rw (with_timeout_none now t _ ((==_iff _ 0).0 e)) at under)
                  (context_with_timeout-DueBy now ctx timeout) (omega arith))
              (calls (context_with_timeout now ctx (pos timeout))))
      | inr e ↦
          let own_timeout = agreed unmarshal req t fits agree ∙ e in
          rw own_timeout (
            Ensures-mono _ _ Anything _
              (λ k under.
                DueBy-of under (with_timeout-DueBy_max now t ctx fits (ground arith)) (omega arith))
              (calls ctx))
    ]
