-- ===== src/Server/Calls.antt =====
-- What the configured server does to a call.
use ovn_kubernetes_mcp.Prelude.Int.{is_zero, ℤ, pos}
use ovn_kubernetes_mcp.Exec.{context_with_timeout, Context}
use ovn_kubernetes_mcp.Utils.Timeout.{int64, TimeoutParams}
use ovn_kubernetes_mcp.Prelude.{
  errorf, ◌≢◌, zero, suc, sym, true, ◌*◌, refl, ◌∙◌, if◌then◌else◌, ◌^◌, ◌<◌, ℕ, ◌≡◌, ap, inl, inr,
  ◌⊎◌, arith, [], ◌∷◌, Option, some, Result-cases, Bool-cases,
}
use ovn_kubernetes_mcp.Text.{codes, Text}
use ovn_kubernetes_mcp.Middleware.Protocol.{no_result, Request, MethodHandler}
use ovn_kubernetes_mcp.Middleware.ToolFilter.{call_tool_name, resolve_disabled}
use ovn_kubernetes_mcp.Middleware.ToolFilter.Hidden.{tools_call_refused}
use ovn_kubernetes_mcp.Middleware.ToolTimeout.{get_timeout_params, tool_timeout}
use ovn_kubernetes_mcp.Server.{
  second, to_tool_timeout, is_positive, with_middleware, Flags, McpServerConfig, Start, configured,
  fatal, printed, parse_flags,
}
use ovn_kubernetes_mcp.Server.Listing.{IsHidden, disabled_iff, filtered}

timeout_of : Start → ℤ
timeout_of (printed x) = pos 0
timeout_of (fatal e) = pos 0
timeout_of (configured cfg) = cfg.tool_timeout

int64_small : (n : ℕ) → n < 2 ^ 63 → int64 n ≡ pos n
int64_small n h = ground arith

-- The timeout of a configuration is the flag's, where it is positive and fits.
timeout_exact :
    (f : Flags) (cfg : McpServerConfig) (seconds : ℕ)
    → parse_flags f ≡ configured cfg
    → f.timeout_seconds ≡ pos seconds
    → seconds * second < 2 ^ 63
    → cfg.tool_timeout ≡ pos (seconds * second)
unfolding parse_flags timeout_of to_tool_timeout
timeout_exact f cfg seconds h e fits = elim (Bool-cases f.show_version) [
  | inl s ↦ absurd (ground (arith, rw (s, parse_flags) at h))
  | inr s ↦ elim (Result-cases (resolve_disabled f.disabled_categories f.disabled_tools)) [
    | inl (d, r) ↦
        let same : to_tool_timeout f.timeout_seconds ≡ cfg.tool_timeout =
          ap timeout_of (rw (s, r, parse_flags) at h) in
        sym same ∙ rw e (int64_small (seconds * second) fits)
    | inr (x, r) ↦ absurd (ground (arith, rw (s, r, parse_flags) at h))
  ]
]

positive : (n : ℕ) → 0 < n → is_positive (pos n) ≡ true
positive zero h = absurd (omega arith)
positive (suc n) h = refl

module _ (unmarshal : Text → Option TimeoutParams) (now : ℕ) where
  timed_call :
      (t n : ℤ) (next : MethodHandler) (ctx : Context) (req : Request)
      → t ≡ n
      → is_positive n ≡ true
      → is_zero (get_timeout_params unmarshal req) ≡ true
      → (if is_positive t then tool_timeout unmarshal now t next else next) ctx
          (codes "tools/call")
          req
        ≡ next (context_with_timeout now ctx n) (codes "tools/call") req
  unfolding tool_timeout
  timed_call t n next ctx req e p z = rw e (rw p (rw z refl))

  -- With a configuration made of the flags whose timeout is positive and fits in an int64 of nanoseconds,
  -- a call of a named tool that asks for no timeout of its own is refused if a flag hides the tool, and
  -- otherwise reaches the handler of the SDK with the timeout of the flag on its context.
  pub served_call :
      (f : Flags) (cfg : McpServerConfig) (next : MethodHandler) (ctx : Context) (req : Request)
      (seconds : ℕ)
      → parse_flags f ≡ configured cfg
      → f.timeout_seconds ≡ pos seconds
      → 0 < seconds
      → seconds * second < 2 ^ 63
      → call_tool_name req ≢ []
      → is_zero (get_timeout_params unmarshal req) ≡ true
      → (IsHidden f (call_tool_name req)
          × (with_middleware unmarshal now cfg next ctx (codes "tools/call") req ≡ record {
            result = no_result;
            error =
                some
                  (errorf "tool %q is disabled by server configuration" (call_tool_name req ∷ []));
          }))
        ⊎ ((¬ IsHidden f (call_tool_name req))
            × (with_middleware unmarshal now cfg next ctx (codes "tools/call") req
                ≡ next
                    (context_with_timeout now ctx (pos (seconds * second)))
                    (codes "tools/call")
                    req))
  unfolding with_middleware
  served_call f cfg next ctx req seconds h e more fits named own =
      let timed : MethodHandler =
        if is_positive cfg.tool_timeout
        then tool_timeout unmarshal now cfg.tool_timeout next
        else next in
      let (to, from) = disabled_iff f cfg (call_tool_name req) h in
      let same = filtered cfg.disabled_tools timed ctx (codes "tools/call") req in
      elim (tools_call_refused cfg.disabled_tools timed ctx req named) [
        | inl (hidden, r) ↦ inl (to hidden, same ∙ r)
        | inr (shown, r) ↦ inr (
          λ x. shown (from x),
          same
              ∙ r
              ∙ timed_call cfg.tool_timeout (pos (seconds * second)) next ctx req
                  (timeout_exact f cfg seconds h e fits) (positive _ (omega arith)) own,
        )
      ]
