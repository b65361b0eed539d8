-- ===== src/MustGather/Server/Laws.antt =====
-- The handlers of the ovsdb-tool on the server that `NewMCPServer` makes.
use ovn_kubernetes_mcp.Prelude.{wrapf, ◌≡◌, true, false, List, [], errorf, Error, Result, ok, err}
use ovn_kubernetes_mcp.Text.{Text}
use ovn_kubernetes_mcp.Exec.{Context}
use ovn_kubernetes_mcp.Files.{leaf, Program}
use ovn_kubernetes_mcp.Files.Laws.{Ensures}
use ovn_kubernetes_mcp.MustGather.OvsdbTool.Confined.{IsFair}
use ovn_kubernetes_mcp.MustGather.OvsdbTool.Databases.{Pod, DbInfo}
use ovn_kubernetes_mcp.MustGather.OvsdbTool.Databases.Confined.{IsListing, IsMapping}
use ovn_kubernetes_mcp.MustGather.OvsdbTool.Query.{Query}
use ovn_kubernetes_mcp.MustGather.OvsdbTool.Query.Laws.{IsQuery}
use ovn_kubernetes_mcp.MustGather.Server.{
  MustGatherMcpServer, list_northbound_tool, list_southbound_tool, query_database_tool,
}

-- No request at all, and an error.
abbrev pub IsRefused : Program Text → Type 0
IsRefused m =
    m ≡ leaf (err (errorf "ovsdb-tool is not available; ensure ovsdb-tool binary is in PATH" []))

module _ (unmarshal_pods : Text → Result (List Pod)) (marshal_infos : List DbInfo → Result Text)
    {Json : Type 0} (unmarshal : Text → Result Json) (marshal : Query Json → Result Text)
    (ctx : Context) (path db table : Text) (conditions columns : List Text) where
  -- With the two commands that were found, the tools list and query.
  abbrev pub Serves : Text → Text → MustGatherMcpServer → Type 0
  Serves omc tool s =
      Ensures IsFair (IsListing omc path) (IsMapping omc path unmarshal_pods marshal_infos true)
        (list_northbound_tool unmarshal_pods marshal_infos ctx s path)
      × Ensures IsFair (IsListing omc path) (IsMapping omc path unmarshal_pods marshal_infos false)
          (list_southbound_tool unmarshal_pods marshal_infos ctx s path)
      × Ensures IsFair (IsQuery unmarshal marshal ctx tool path db table conditions columns)
          (λ _. Unit) (query_database_tool unmarshal marshal ctx s path db table conditions columns)

  abbrev pub Refuses : MustGatherMcpServer → Type 0
  Refuses s =
      IsRefused (list_northbound_tool unmarshal_pods marshal_infos ctx s path)
      × IsRefused (list_southbound_tool unmarshal_pods marshal_infos ctx s path)
      × IsRefused (query_database_tool unmarshal marshal ctx s path db table conditions columns)

  -- What `NewMCPServer` makes of the paths that were looked up for omc and for ovsdb-tool.
  pub data IsServer (omc_path ovsdb_tool_path : Result Text)
      : Result MustGatherMcpServer → Type 0 where
    no_omc :
        (e : Error)
        → omc_path ≡ err e
        → IsServer omc_path ovsdb_tool_path (
            err (
              wrapf "failed to get omc command path: %w" []
                (wrapf "failed to look path for omc: %w" [] e)))
    without_tool :
        (omc : Text) (e : Error) (s : MustGatherMcpServer)
        → omc_path ≡ ok omc
        → ovsdb_tool_path ≡ err e
        → s.omc_client.command_path ≡ omc
        → Refuses s
        → IsServer omc_path ovsdb_tool_path (ok s)
    with_tool :
        (omc tool : Text) (s : MustGatherMcpServer)
        → omc_path ≡ ok omc
        → ovsdb_tool_path ≡ ok tool
        → s.omc_client.command_path ≡ omc
        → Serves omc tool s
        → IsServer omc_path ovsdb_tool_path (ok s)
