-- ===== src/Sosreport/Logs.antt =====
-- pkg/sosreport/mcp/logs.go. What `%q` makes of a text is the parameter `quote`.
pub mod Names
pub mod Reads
use ovn_kubernetes_mcp.Prelude.{
  Result, ℕ, Bool, true, false, not, ◌&&◌, ◌||◌, List, [], ◌∷◌, ◌++◌, Option, none, some,
  if◌then◌else◌, is_empty, keep, every, between, errorf, reject_if, ok,
}
use ovn_kubernetes_mcp.Text.{
  Text, codes, text_eq, join, has_prefix, has_suffix, trim_prefix, trim_suffix, is_digit,
}
use ovn_kubernetes_mcp.Text.Dict.{lookup}
use ovn_kubernetes_mcp.Text.Paths.{base, join_paths, split_last}
use ovn_kubernetes_mcp.Files.{open_file, gunzip, leaf, ask, asked, Program, wrapped, ◌>>=◌, ◌>>◌}
use ovn_kubernetes_mcp.Utils.Lines.{newline, strip_empty_lines}
use ovn_kubernetes_mcp.Utils.HeadTail.{HeadTailParams, apply}
use ovn_kubernetes_mcp.Utils.Pattern.{PatternParams, Regexp, pattern_test}
use ovn_kubernetes_mcp.Sosreport.Reports.{PluginDetail, Manifest, read_lines, load_manifest}
use ovn_kubernetes_mcp.Sosreport.Commands.{default_max_lines}

-- `unicode.ASCII_Hex_Digit`
abbrev pub is_hex_digit : ℕ → Bool
is_hex_digit c = is_digit c || between b'A' b'F' c || between b'a' b'f' c

-- The name and the rest around the last hyphen, `none` where the index is not positive.
abbrev pub container_name_of : Option (Text × Text) → Option Text
container_name_of none = none
container_name_of (some ([], id_part)) = none
container_name_of (some (c ∷ s, id_part)) =
    if not (is_empty id_part) && every is_hex_digit id_part then some (c ∷ s) else none

unfoldable pub parse_container_name : Text → Option Text
parse_container_name remainder = container_name_of (split_last b'-' remainder)

abbrev pub is_wanted : Text → Option Text → Bool
is_wanted container none = false
is_wanted container (some name) = is_empty container || text_eq name container

unfoldable pub matches_base : Text → Text → Text → Text → Bool
unfolding parse_container_name
matches_base base_name namespace name container =
    let stem = trim_suffix base_name (codes ".log") in
    let prefix = name ++ (codes "_" ++ (namespace ++ codes "_")) in
    has_suffix base_name (codes ".log")
    && (has_prefix stem prefix
        && is_wanted container (parse_container_name (trim_prefix stem prefix)))

unfoldable pub matches_container_log_file : Text → Text → Text → Text → Bool
matches_container_log_file log_path namespace name container =
    matches_base (trim_suffix (base log_path) (codes ".gz")) namespace name container

-- The two loops of `getPodLogs`: the first path that matches.
unfoldable pub first_copied : Text → Text → Text → List Text → Option Text
first_copied namespace name container [] = none
first_copied namespace name container (path ∷ paths) =
    if matches_container_log_file path namespace name container
    then some path
    else first_copied namespace name container paths

unfoldable pub first_log : Text → Text → Text → List (List Text) → Option Text
first_log namespace name container [] = none
first_log namespace name container (copied ∷ rest) =
    elim (first_copied namespace name container copied) [
      | some path ↦ some path
      | none ↦ first_log namespace name container rest
    ]

abbrev pub gunzipped : Text → Program (Unit {0})
gunzipped path =
    if has_suffix path (codes ".gz")
    then ask (gunzip path) (wrapped "failed to create gzip reader: %w" [])
    else leaf (ok tt)

unfoldable pub search_in_file : Regexp → Text → PatternParams → Program (List Text)
search_in_file compile path p = do
  ask (open_file path) (λ a. leaf a)
  gunzipped path
  test ← leaf (pattern_test compile p)
  lines ← read_lines path
  leaf (ok (keep test (strip_empty_lines lines)))

module _ (compile : Regexp) (quote : Text → Text) (namespace name container : Text)
    (p : PatternParams) (head_tail : HeadTailParams) where
  abbrev pub pod_name : Text
  pod_name = namespace ++ (codes "/" ++ name)

  abbrev pub no_log_message : Text
  no_log_message =
      if not (is_empty container)
      then codes "No pod logs found for pod "
        ++ (pod_name ++ (codes " container " ++ (quote container ++ codes "\n")))
      else codes "No pod logs found for pod " ++ (pod_name ++ codes "\n")

  abbrev pub log_output : List Text → Text
  log_output result =
      if is_empty result
      then (if not (is_empty p.pattern)
          then codes "No matches found for pattern: " ++ (p.pattern ++ codes "\n")
          else codes "No log content found for pod " ++ (pod_name ++ codes "\n"))
      else join (apply head_tail result default_max_lines) newline

  -- What follows the loops.
  abbrev pub read_log : Text → Option Text → Program Text
  read_log sosreport_path none = leaf (ok no_log_message)
  read_log sosreport_path (some log_path) = do
    result ←
        search_in_file compile
          (join_paths (sosreport_path ∷ trim_prefix log_path (codes "host/") ∷ [])) p
    leaf (ok (log_output result))

  -- The plugin of the container logs, which may be absent or without files.
  abbrev pub read_plugin : Text → Option PluginDetail → Program Text
  read_plugin sosreport_path none = leaf (ok (codes "No pod logs found in sosreport\n"))
  read_plugin sosreport_path (some plugin) =
      if is_empty plugin.files
      then leaf (ok (codes "No pod logs found in sosreport\n"))
      else read_log sosreport_path (first_log namespace name container plugin.files)

  unfoldable pub get_pod_logs : (Text → Result Manifest) → Text → Program Text
  get_pod_logs unmarshal sosreport_path = do
    leaf (reject_if (is_empty namespace) (errorf "namespace is required" []))
    leaf (reject_if (is_empty name) (errorf "name is required" []))
    manifest ← load_manifest unmarshal sosreport_path
    read_plugin sosreport_path (lookup (codes "container_log") manifest)
