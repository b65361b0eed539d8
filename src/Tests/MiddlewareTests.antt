-- ===== src/Tests/MiddlewareTests.antt =====
-- The middleware around concrete handlers.
use ovn_kubernetes_mcp.Prelude.{
  ◌*◌, ◌≡◌, ◌≢◌, ◌↔◌, refl, [], ◌∷◌, ◌+◌, List, Option, some, All, ok, max, arith,
}
use ovn_kubernetes_mcp.Prelude.Int.{pos}
use ovn_kubernetes_mcp.Text.{Text, codes}
use ovn_kubernetes_mcp.Exec.{done, pod_exec, call, Context, M, ctx_of}
use ovn_kubernetes_mcp.Exec.Laws.{Ensures, Anything}
use ovn_kubernetes_mcp.Utils.Timeout.{TimeoutParams, second, max_timeout, to_duration, with_timeout}
use ovn_kubernetes_mcp.Utils.Timeout.Laws.{DueBy}
use ovn_kubernetes_mcp.Middleware.Protocol.{Request, call_tool}
use ovn_kubernetes_mcp.Middleware.ToolFilter.{resolve_disabled, split_csv, call_tool_name}
use ovn_kubernetes_mcp.Middleware.ToolFilter.Resolve.{IsCategory, IsTool, resolve_disabled_accepts}
use ovn_kubernetes_mcp.Middleware.ToolTimeout.{tool_timeout, get_timeout_params}
use ovn_kubernetes_mcp.Middleware.Laws.{tool_timeout-DueBy}
use ovn_kubernetes_mcp.Tests.Samples.{background, thirty_seconds}

abbrev capture_tools : List Text
capture_tools = codes "tcpdump" ∷ codes "pwru" ∷ codes "get-nft" ∷ []

resolve_disabled_accepts_example :
    ((d : List Text) × (resolve_disabled (codes "network-tools") (codes "get-nft") ≡ ok d)) ↔ (
      All IsCategory (split_csv (codes "network-tools")) × All IsTool (split_csv (codes "get-nft")))
resolve_disabled_accepts_example =
    resolve_disabled_accepts (codes "network-tools") (codes "get-nft")

abbrev call_pwru : Request
call_pwru = some (call_tool (some (record { name = codes "pwru"; arguments = [] })))

call_pwru_named : call_tool_name call_pwru ≢ []
call_pwru_named e = cc

-- A handler of one command, under the timeout of its request.
abbrev one_command : Context → Text → Request → M (Unit {0})
one_command ctx method req =
    call
      (pod_exec (record {
        ctx = with_timeout 7 thirty_seconds ctx;
        namespace = [];
        name = codes "web";
        container = [];
        command = codes "ls" ∷ [];
      }))
      (λ reply. done tt)

abbrev thirty : Text → Option TimeoutParams
thirty arguments = some thirty_seconds

timeout_read : get_timeout_params thirty call_pwru ≡ to_duration thirty_seconds
unfolding get_timeout_params
timeout_read = refl

tool_timeout-DueBy_example :
    Ensures
      (λ k. DueBy (7 + max (60 * second) max_timeout) (ctx_of k))
      Anything
      (tool_timeout thirty 7
        (pos (60 * second))
        one_command
        background
        (codes "tools/call")
        call_pwru)
tool_timeout-DueBy_example =
    tool_timeout-DueBy thirty 7 (60 * second) one_command background call_pwru thirty_seconds
      (omega arith) timeout_read (λ c. (refl, λ r. tt))
