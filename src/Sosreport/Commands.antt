-- ===== src/Sosreport/Commands.antt =====
-- pkg/sosreport/mcp/commands.go, and the handlers of mcp.go over it. What `%q` makes of a text is the
-- parameter `quote`.
pub mod Laws
use ovn_kubernetes_mcp.Prelude.{
  ℕ, ◌+◌, Bool, true, false, not, ◌&&◌, ◌||◌, List, [], ◌∷◌, ◌++◌, map, Option, none, some, leb,
  if◌then◌else◌, is_empty, keep, length, errorf, Result, ok, err, ◌>>=◌,
}
use ovn_kubernetes_mcp.Prelude.Int.{ℤ, pos_part}
use ovn_kubernetes_mcp.Text.{Text, codes, join}
use ovn_kubernetes_mcp.Text.Dict.{lookup}
use ovn_kubernetes_mcp.Text.Paths.{join_paths}
use ovn_kubernetes_mcp.Files
use ovn_kubernetes_mcp.Files.{open_file, leaf, ask, Program, wrapped}
use ovn_kubernetes_mcp.Utils.Lines.{newline, strip_empty_lines}
use ovn_kubernetes_mcp.Utils.HeadTail.{HeadTailParams, apply}
use ovn_kubernetes_mcp.Utils.Pattern.{PatternParams, Regexp, pattern_test}
use ovn_kubernetes_mcp.Sosreport.Reports.{
  CommandDetail, PluginDetail, Manifest, check_exists, validate_sosreport_path,
  validate_relative_path, read_lines, load_manifest,
}

abbrev pub default_max_lines : ℕ
default_max_lines = 100

abbrev pub default_max_results : ℕ
default_max_results = 100

pub record PluginSummary : Type 0 where
  pub name : Text
  pub command_count : ℕ

pub record ListPluginsResult : Type 0 where
  pub plugins : List PluginSummary
  pub total_commands : ℕ

pub record CommandSummary : Type 0 where
  pub exec : Text
  pub filepath : Text

pub record ListCommandsResult : Type 0 where
  pub plugin : Text
  pub command_count : ℕ
  pub commands : List CommandSummary

pub record CommandMatch : Type 0 where
  pub plugin : Text
  pub exec : Text
  pub filepath : Text

pub record SearchCommandsResult : Type 0 where
  pub matches : List CommandMatch
  pub total : ℕ

-- The loop of `listPlugins`.
unfoldable pub list_plugins_from : ListPluginsResult → Manifest → ListPluginsResult
list_plugins_from result [] = result
list_plugins_from result ((name, plugin) ∷ rest) =
    list_plugins_from
      (record {
        plugins =
            result.plugins ++ (record { name = name; command_count = length plugin.commands } ∷ []);
        total_commands = result.total_commands + length plugin.commands;
      })
      rest

unfoldable pub commands_of : Text → Manifest → Result ListCommandsResult
commands_of plugin_name manifest = elim (lookup plugin_name manifest) [
  | none ↦ err (errorf "plugin %q not found in manifest" (plugin_name ∷ []))
  | some plugin ↦ ok (record {
    plugin = plugin_name;
    command_count = length plugin.commands;
    commands =
        map (λ (c : CommandDetail). record { exec = c.exec; filepath = c.filepath })
          plugin.commands;
  })
]

abbrev pub result_limit : ℤ → ℕ
result_limit max_results =
    if leb (pos_part max_results) 0 then default_max_results else pos_part max_results

module _ (compile : Regexp) (p : PatternParams) where
  -- Whether the one line that is given matches.
  unfoldable pub matches_text : Text → Result Bool
  unfolding pattern_test
  matches_text text = do test ← pattern_test compile p; ok (test text)

  unfoldable pub command_matches : CommandDetail → Result Bool
  unfolding matches_text
  command_matches cmd = do
    exec_matches ← matches_text cmd.exec
    filepath_matches ← matches_text cmd.filepath
    ok (exec_matches || filepath_matches)

  -- The inner loop of `searchCommands`, with what goes on behind the plugin's commands.
  unfoldable pub search_plugin :
      ℕ
      → Text
      → List CommandDetail
      → List CommandMatch
      → (List CommandMatch → Result (List CommandMatch))
      → Result (List CommandMatch)
  search_plugin max_results name [] matches next = next matches
  search_plugin max_results name (cmd ∷ cmds) matches next = elim (command_matches cmd) [
    | err e ↦ err e
    | ok false ↦ search_plugin max_results name cmds matches next
    | ok true ↦
        let more =
          matches ++ (record { plugin = name; exec = cmd.exec; filepath = cmd.filepath } ∷ []) in
        elim (leb max_results (length more)) [
          | true ↦ ok more
          | false ↦ search_plugin max_results name cmds more next
        ]
  ]

  unfoldable pub search_plugins : ℕ → Manifest → List CommandMatch → Result (List CommandMatch)
  search_plugins max_results [] matches = ok matches
  search_plugins max_results ((name, plugin) ∷ rest) matches =
      search_plugin max_results name plugin.commands matches
        (λ found. search_plugins max_results rest found)

  unfoldable pub search_manifest : Manifest → ℤ → Result SearchCommandsResult
  search_manifest manifest max_results = do
    matches ← search_plugins (result_limit max_results) manifest []
    ok (record { matches = matches; total = length matches })

module _ (unmarshal : Text → Result Manifest) where
  unfoldable pub list_plugins : Text → Program ListPluginsResult
  list_plugins sosreport_path = Files.◌>>=◌ (load_manifest unmarshal sosreport_path) (λ manifest.
      leaf (ok (list_plugins_from (record { plugins = []; total_commands = 0 }) manifest)))

  unfoldable pub list_commands : Text → Text → Program ListCommandsResult
  list_commands sosreport_path plugin_name =
      Files.◌>>=◌ (load_manifest unmarshal sosreport_path)
        (λ manifest. leaf (commands_of plugin_name manifest))

  -- The handler `SearchCommands` over `searchCommands`.
  unfoldable pub search_commands : Regexp → Text → PatternParams → ℤ → Program SearchCommandsResult
  search_commands compile sosreport_path p max_results =
      if is_empty p.pattern
      then leaf (err (errorf "pattern is required" []))
      else Files.◌>>=◌ (load_manifest unmarshal sosreport_path)
          (λ manifest. leaf (search_manifest compile p manifest max_results))
