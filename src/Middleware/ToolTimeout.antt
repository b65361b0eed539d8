-- ===== src/Middleware/ToolTimeout.antt =====
-- pkg/middleware/timeout/timeout.go. `json.Unmarshal` into `TimeoutParams` is the parameter `unmarshal`:
-- the value of `timeout_seconds` in a tool's arguments, or `none` where it fails.
use ovn_kubernetes_mcp.Prelude.Int.{is_zero, pos, ℤ}
use ovn_kubernetes_mcp.Prelude.{none, some, not, ℕ, Option, if◌then◌else◌}
use ovn_kubernetes_mcp.Text.{Text, codes, text_eq}
use ovn_kubernetes_mcp.Exec.{Context, context_with_timeout}
use ovn_kubernetes_mcp.Utils.Timeout.{TimeoutParams, to_duration}
use ovn_kubernetes_mcp.Middleware.Protocol.{call_tool, other_params, Request}

abbrev pub duration_of : Option TimeoutParams → ℤ
duration_of none = pos 0
duration_of (some t) = to_duration t

unfoldable pub get_timeout_params : (Text → Option TimeoutParams) → Request → ℤ
get_timeout_params unmarshal none = pos 0
get_timeout_params unmarshal (some other_params) = pos 0
get_timeout_params unmarshal (some (call_tool none)) = pos 0
get_timeout_params unmarshal (some (call_tool (some p))) = duration_of (unmarshal p.arguments)

-- The handler behind the middleware may return anything.
unfoldable pub tool_timeout :
    {R : Type 0}
    → (Text → Option TimeoutParams)
    → ℕ
    → ℤ
    → (Context → Text → Request → R)
    → Context
    → Text
    → Request
    → R
tool_timeout unmarshal now timeout next ctx method req =
    if not (text_eq method (codes "tools/call"))
    then next ctx method req
    else if is_zero (get_timeout_params unmarshal req)
    then next (context_with_timeout now ctx timeout) method req
    else next ctx method req
