-- ===== src/Sosreport/Output.antt =====
-- `getCommandOutput` of pkg/sosreport/mcp/commands.go. What `%q` makes of a text is the parameter `quote`.
pub mod Below
use ovn_kubernetes_mcp.Prelude.{
  not, ◌&&◌, List, [], ◌∷◌, ◌++◌, if◌then◌else◌, is_empty, keep, errorf, ok,
}
use ovn_kubernetes_mcp.Text.{Text, codes, join}
use ovn_kubernetes_mcp.Text.Paths.{join_paths}
use ovn_kubernetes_mcp.Files.{open_file, leaf, ask, Program, wrapped, ◌>>=◌, ◌>>◌}
use ovn_kubernetes_mcp.Utils.Lines.{newline, strip_empty_lines}
use ovn_kubernetes_mcp.Utils.HeadTail.{HeadTailParams, apply}
use ovn_kubernetes_mcp.Utils.Pattern.{PatternParams, Regexp, pattern_test}
use ovn_kubernetes_mcp.Sosreport.Reports.{
  check_exists, validate_sosreport_path, validate_relative_path, read_lines,
}
use ovn_kubernetes_mcp.Sosreport.Commands.{default_max_lines}

-- What is made of the lines that matched.
unfoldable pub command_output : (Text → Text) → PatternParams → HeadTailParams → List Text → Text
command_output quote p head_tail lines =
    if is_empty lines && not (is_empty p.pattern)
    then codes "No lines matching pattern " ++ (quote p.pattern ++ codes " found\n")
    else join (apply head_tail lines default_max_lines) newline

module _ (compile : Regexp) (quote : Text → Text) where
  unfoldable pub get_command_output : Text → Text → PatternParams → HeadTailParams → Program Text
  get_command_output sosreport_path relative_filepath p head_tail = do
    validate_sosreport_path sosreport_path
    leaf (validate_relative_path relative_filepath)
    let full_path = join_paths (sosreport_path ∷ relative_filepath ∷ [])
    check_exists full_path (errorf "command output file not found: %s" (relative_filepath ∷ []))
    ask (open_file full_path) (wrapped "failed to open file: %w" [])
    test ← leaf (pattern_test compile p)
    lines ← read_lines full_path
    leaf (ok (command_output quote p head_tail (keep test (strip_empty_lines lines))))
