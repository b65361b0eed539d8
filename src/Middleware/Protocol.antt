-- ===== src/Middleware/Protocol.antt =====
-- The types of the MCP SDK that the middleware looks into. `Other` values are those that its type
-- assertions do not match.
use ovn_kubernetes_mcp.Prelude.{List, Option, Error}
use ovn_kubernetes_mcp.Text.{Text}
use ovn_kubernetes_mcp.Exec.{Context}

-- `*mcp.CallToolParamsRaw`; the arguments are JSON text.
pub record CallToolParams : Type 0 where
  pub name : Text
  pub arguments : Text

-- `req.GetParams()`: a `*mcp.CallToolParamsRaw`, which may be nil, or another type.
pub data Params : Type 0 where
  call_tool : Option CallToolParams → Params
  other_params : Params

-- `mcp.Request`, which may be nil.
abbrev pub Request : Type 0
Request = Option Params

pub record Tool : Type 0 where
  pub name : Text
  pub description : Text

-- `mcp.Result`: a `*mcp.ListToolsResult` with its pointers to tools, or another value, or nil.
pub data McpResult : Type 0 where
  list_tools : List (Option Tool) → McpResult
  other_result : Text → McpResult
  no_result : McpResult

-- The two values that a handler returns.
pub record Response : Type 0 where
  pub result : McpResult
  pub error : Option Error

abbrev pub MethodHandler : Type 0
MethodHandler = Context → Text → Request → Response
