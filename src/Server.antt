-- ===== src/Server.antt =====
-- cmd/ovnk-mcp-server/main.go: the configuration from the flags, the servers whose tools are registered
-- and the middleware around the handler of the MCP SDK. `log.Fatalf` is an error that ends the start.
-- The transports are left out.
pub mod Listing
pub mod Calls
use ovn_kubernetes_mcp.Prelude.Int.{ℤ, pos, negsuc}
use ovn_kubernetes_mcp.Prelude.{
  String, ℕ, zero, suc, ◌*◌, Bool, true, false, List, [], ◌∷◌, ◌++◌, Option, none, some,
  if◌then◌else◌, is_empty, Error, errorf, wrapf, wrap, Result, ok, err, ◌>>=◌, ◌>>◌,
}
use ovn_kubernetes_mcp.Text.{Text, codes, text_eq}
use ovn_kubernetes_mcp.Utils.Timeout.{TimeoutParams, int64, second}
use ovn_kubernetes_mcp.Middleware.Protocol.{MethodHandler}
use ovn_kubernetes_mcp.Middleware.ToolFilter.{tool_filter, resolve_disabled}
use ovn_kubernetes_mcp.Middleware.ToolTimeout.{tool_timeout}

-- The variables that the flags are parsed into, by the package `flag`.
pub record Flags : Type 0 where
  pub show_version : Bool
  pub mode : Text
  pub transport : Text
  pub host : Text
  pub port : Text
  pub kubeconfig : Text
  pub pwru_image : Text
  pub tcpdump_image : Text
  pub kernel_image : Text
  pub timeout_seconds : ℤ
  pub disabled_categories : Text
  pub disabled_tools : Text

pub record McpServerConfig : Type 0 where
  pub mode : Text
  pub transport : Text
  pub host : Text
  pub port : Text
  pub kubeconfig : Text
  pub pwru_image : Text
  pub tcpdump_image : Text
  pub kernel_image : Text
  pub tool_timeout : ℤ
  pub disabled_tools : List Text

-- What `parseFlags` does: it prints the version and exits, or fails, or returns.
pub data Start : Type 0 where
  printed : Text → Start
  fatal : Error → Start
  configured : McpServerConfig → Start

abbrev pub version_text : Text
version_text = codes "ovn-kubernetes-mcp-server version 0.1.0"

-- `time.Duration(timeoutSeconds) * time.Second`, where a negative number of seconds is 120.
unfoldable pub to_tool_timeout : ℤ → ℤ
to_tool_timeout (negsuc n) = int64 (120 * second)
to_tool_timeout (pos n) = int64 (n * second)

abbrev pub config_of : Flags → Result (List Text) → Start
config_of f (err e) = fatal (wrapf "Invalid tool filter configuration: %v" [] e)
config_of f (ok disabled) = configured (record {
  mode = f.mode;
  transport = f.transport;
  host = f.host;
  port = f.port;
  kubeconfig = f.kubeconfig;
  pwru_image = f.pwru_image;
  tcpdump_image = f.tcpdump_image;
  kernel_image = f.kernel_image;
  tool_timeout = to_tool_timeout f.timeout_seconds;
  disabled_tools = disabled;
})

unfoldable pub parse_flags : Flags → Start
parse_flags f =
    if f.show_version
    then printed version_text
    else config_of f (resolve_disabled f.disabled_categories f.disabled_tools)

abbrev pub is_positive : ℤ → Bool
is_positive (pos (suc n)) = true
is_positive (pos zero) = false
is_positive (negsuc n) = false

-- The middleware of `main`. `AddReceivingMiddleware` wraps the handler that is there, so what is added
-- later stands outside.
unfoldable pub with_middleware :
    (Text → Option TimeoutParams) → ℕ → McpServerConfig → MethodHandler → MethodHandler
with_middleware unmarshal now cfg next =
    let timed : MethodHandler =
      if is_positive cfg.tool_timeout
      then tool_timeout unmarshal now cfg.tool_timeout next
      else next in
    if is_empty cfg.disabled_tools then timed else tool_filter cfg.disabled_tools timed

-- The servers whose tools are registered.
pub data ToolServer : Type 0 where
  kubernetes_server : ToolServer
  ovn_server : ToolServer
  ovs_server : ToolServer
  kernel_server : ToolServer
  network_tools_server : ToolServer
  sosreport_server : ToolServer
  must_gather_server : ToolServer

-- The error of each `NewMCPServer`, if it has one.
pub record Creations : Type 0 where
  pub kubernetes : Option Error
  pub ovn : Option Error
  pub ovs : Option Error
  pub kernel : Option Error
  pub network_tools : Option Error
  pub must_gather : Option Error

abbrev pub fatal_if : String → Option Error → Result (Unit {0})
fatal_if format none = ok tt
fatal_if format (some e) = err (wrapf format [] e)

unfoldable pub setup_live_cluster : Creations → Result (List ToolServer)
setup_live_cluster c = do
  fatal_if "Failed to create OVN-K MCP server: %v" c.kubernetes
  fatal_if "Failed to create OVN MCP server: %v" c.ovn
  fatal_if "Failed to create OVS MCP server: %v" c.ovs
  fatal_if "Failed to create Kernel MCP server: %v" c.kernel
  fatal_if "Failed to create Network Tools MCP server: %v" c.network_tools
  ok (kubernetes_server ∷ ovn_server ∷ ovs_server ∷ kernel_server ∷ network_tools_server ∷ [])

-- A must-gather server that cannot be created is only logged.
unfoldable pub setup_offline : Creations → List ToolServer
setup_offline c = elim c.must_gather [
  | none ↦ sosreport_server ∷ must_gather_server ∷ []
  | some e ↦ sosreport_server ∷ []
]

-- The switch on the mode.
unfoldable pub setup : Creations → Text → Result (List ToolServer)
setup c mode =
    let live = setup_live_cluster c in
    if text_eq mode (codes "live-cluster")
    then live
    else if text_eq mode (codes "offline")
    then ok (setup_offline c)
    else if text_eq mode (codes "dual")
    then (live >>= λ servers. ok (servers ++ setup_offline c))
    else err (errorf "Invalid mode: %s. Valid modes are: live-cluster, offline, dual" (mode ∷ []))
