-- ===== src/MustGather/Server.antt =====
-- pkg/must-gather/mcp: the server with its two clients, and the handlers in ovsdb-tool.go. What
-- `exec.LookPath` returns for omc and for ovsdb-tool is given.
pub mod Laws
use ovn_kubernetes_mcp.Prelude.{
  Bool, List, [], ◌∷◌, Option, none, some, errorf, wrap, Result, ok, err, ◌>>=◌,
}
use ovn_kubernetes_mcp.Text.{Text}
use ovn_kubernetes_mcp.Exec.{Context}
use ovn_kubernetes_mcp.Files.{leaf, Program}
use ovn_kubernetes_mcp.MustGather.OvsdbTool.Databases.{
  Pod, DbInfo, list_northbound_databases, list_southbound_databases,
}
use ovn_kubernetes_mcp.MustGather.OvsdbTool.Query.{Query, query_database}

-- `OmcClient`, without its lock.
pub record OmcClient : Type 0 where
  pub command_path : Text

pub record OvsdbTool : Type 0 where
  pub command_path : Text
  pub omc_client : OmcClient

pub record MustGatherMcpServer : Type 0 where
  pub omc_client : OmcClient
  pub ovsdb_tool : Option OvsdbTool

abbrev pub client_at : Result Text → Result OmcClient
client_at (ok path) = ok (record { command_path = path })
client_at (err e) = err e

abbrev pub get_omc_command_path : Result Text → Result Text
get_omc_command_path look_path = wrap "failed to look path for omc: %w" [] look_path

unfoldable pub new_omc_client : Result Text → Result OmcClient
new_omc_client look_path =
    client_at (wrap "failed to get omc command path: %w" [] (get_omc_command_path look_path))

abbrev pub tool_at : OmcClient → Result Text → Result OvsdbTool
tool_at client (ok path) = ok (record { command_path = path; omc_client = client })
tool_at client (err e) = err e

abbrev pub get_ovsdb_tool_command_path : Result Text → Result Text
get_ovsdb_tool_command_path look_path = wrap "failed to look path for ovsdb-tool: %w" [] look_path

-- A client that is nil is `none`.
unfoldable pub new_ovsdb_tool : Option OmcClient → Result Text → Result OvsdbTool
new_ovsdb_tool none look_path = err (errorf "omcClient is required" [])
new_ovsdb_tool (some client) look_path =
    tool_at client
      (wrap "failed to get ovsdb tool command path: %w" [] (get_ovsdb_tool_command_path look_path))

-- A tool that cannot be made is only logged.
abbrev pub tool_or_nil : Result OvsdbTool → Option OvsdbTool
tool_or_nil (ok tool) = some tool
tool_or_nil (err e) = none

unfoldable pub new_mcp_server : Result Text → Result Text → Result MustGatherMcpServer
new_mcp_server omc_path ovsdb_tool_path = do
  client ← new_omc_client omc_path
  ok (record {
    omc_client = client;
    ovsdb_tool = tool_or_nil (new_ovsdb_tool (some client) ovsdb_tool_path);
  })

-- The guard of the three handlers.
unfoldable pub with_ovsdb_tool : Option OvsdbTool → (OvsdbTool → Program Text) → Program Text
with_ovsdb_tool none f =
    leaf (err (errorf "ovsdb-tool is not available; ensure ovsdb-tool binary is in PATH" []))
with_ovsdb_tool (some tool) f = f tool

module _ (unmarshal_pods : Text → Result (List Pod)) (marshal_infos : List DbInfo → Result Text)
    (ctx : Context) (s : MustGatherMcpServer) where
  unfoldable pub list_northbound_tool : Text → Program Text
  list_northbound_tool path = with_ovsdb_tool s.ovsdb_tool (λ tool.
      list_northbound_databases unmarshal_pods marshal_infos ctx tool.omc_client.command_path path)

  unfoldable pub list_southbound_tool : Text → Program Text
  list_southbound_tool path = with_ovsdb_tool s.ovsdb_tool (λ tool.
      list_southbound_databases unmarshal_pods marshal_infos ctx tool.omc_client.command_path path)

module _ {Json : Type 0} (unmarshal : Text → Result Json) (marshal : Query Json → Result Text)
    (ctx : Context) (s : MustGatherMcpServer) where
  unfoldable pub query_database_tool : Text → Text → Text → List Text → List Text → Program Text
  query_database_tool path db_name table conditions columns = with_ovsdb_tool s.ovsdb_tool (λ tool.
      query_database unmarshal marshal ctx tool.command_path path db_name table conditions columns)
