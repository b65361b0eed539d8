-- ===== src/Middleware/ToolFilter.antt =====
-- pkg/middleware/toolfilter/toolfilter.go. A Go map used as a set is the list of its keys.
pub mod Resolve
pub mod Hidden
use ovn_kubernetes_mcp.Prelude.{
  ◌==◌, ◌||◌, ltb, refl, true, ◌≡◌, errorf, map, ◌&&◌, ◌++◌, keep, not, err, ok, is_empty, none, [],
  some, ◌∷◌, false, ◌>>=◌, Bool, List, Option, Error, Result, if◌then◌else◌,
}
use ovn_kubernetes_mcp.Text.{Text, codes, elem, text_eq, split, trim_space}
use ovn_kubernetes_mcp.Middleware.Protocol.{
  CallToolParams, Params, call_tool, other_params, Request, Tool, McpResult, list_tools,
  other_result, no_result, Response, MethodHandler,
}

abbrev pub tools_by_category : List (Text × List Text)
tools_by_category =
    (codes "kubernetes", codes "pod-logs" ∷ codes "resource-get" ∷ codes "resource-list" ∷ [])
    ∷ (
      codes "ovn",
      codes "ovn-show" ∷ codes "ovn-get" ∷ codes "ovn-lflow-list" ∷ codes "ovn-trace" ∷ [],
    )
    ∷ (codes "ovs", codes "ovs-vsctl" ∷ codes "ovs-ofctl" ∷ codes "ovs-appctl" ∷ [])
    ∷ (
      codes "kernel",
      codes "get-conntrack" ∷ codes "get-iptables" ∷ codes "get-nft" ∷ codes "get-ip" ∷ [],
    )
    ∷ (codes "network-tools", codes "tcpdump" ∷ codes "pwru" ∷ [])
    ∷ (
      codes "sosreport",
      codes "sos-list-plugins"
          ∷ codes "sos-list-commands"
          ∷ codes "sos-search-commands"
          ∷ codes "sos-get-command"
          ∷ codes "sos-get-pod-logs"
          ∷ [],
    )
    ∷ (
      codes "must-gather",
      codes "must-gather-get-resource"
          ∷ codes "must-gather-list-resources"
          ∷ codes "must-gather-pod-logs"
          ∷ codes "must-gather-ovnk-info"
          ∷ codes "must-gather-list-northbound-databases"
          ∷ codes "must-gather-list-southbound-databases"
          ∷ codes "must-gather-query-database"
          ∷ [],
    )
    ∷ []

-- `m[key]`, with whether the key is there.
unfoldable pub find_category : Text → List (Text × List Text) → Option (List Text)
find_category cat [] = none
find_category cat ((name, tools) ∷ rest) =
    if text_eq cat name then some tools else find_category cat rest

-- The parts of a comma-separated list, trimmed, without the empty ones.
unfoldable pub split_csv : Text → List Text
split_csv [] = []
split_csv (c ∷ s) = keep (λ p. not (is_empty p)) (map trim_space (split (c ∷ s) b','))

-- The tools of every category, whatever the order in which Go ranges over the map.
abbrev pub all_known_tools : List (Text × List Text) → List Text
all_known_tools [] = []
all_known_tools ((name, tools) ∷ rest) = tools ++ all_known_tools rest

-- The order of strings. The names of the categories are ASCII.
abbrev text_leb : Text → Text → Bool
text_leb [] t = true
text_leb (c ∷ s) [] = false
text_leb (c ∷ s) (d ∷ t) = ltb c d || (c == d && text_leb s t)

abbrev insert_name : Text → List Text → List Text
insert_name name [] = name ∷ []
insert_name name (n ∷ ns) =
    let rest = insert_name name ns in if text_leb name n then name ∷ n ∷ ns else n ∷ rest

-- `Categories`: the sorted keys of the map.
unfoldable pub categories : List (Text × List Text) → List Text
categories [] = []
categories ((name, tools) ∷ rest) = insert_name name (categories rest)

-- `strings.Join(names, ", ")`
abbrev comma_separated : List Text → Text
comma_separated [] = []
comma_separated (n ∷ []) = n
comma_separated (n ∷ m ∷ ns) = n ++ (codes ", " ++ comma_separated (m ∷ ns))

-- The first loop of `ResolveDisabled`: the tools of the categories join those disabled so far.
unfoldable pub disable_categories :
    List (Text × List Text) → List Text → List Text → Result (List Text)
unfolding categories
disable_categories catalog [] disabled = ok disabled
disable_categories catalog (cat ∷ cats) disabled = elim (find_category cat catalog) [
  | none ↦ err (
      errorf "unknown category %q (valid: %s)"
        (cat ∷ comma_separated (categories tools_by_category) ∷ []))
  | some tools ↦ disable_categories catalog cats (disabled ++ tools)
]

-- The second loop.
unfoldable pub disable_tools : List Text → List Text → List Text → Result (List Text)
disable_tools known [] disabled = ok disabled
disable_tools known (t ∷ ts) disabled =
    let rest = disable_tools known ts (disabled ++ t ∷ []) in
    if not (elem t known) then err (errorf "unknown tool %q" (t ∷ [])) else rest

unfoldable pub resolve_disabled : Text → Text → Result (List Text)
resolve_disabled disabled_categories disabled_tools = do
  disabled ← disable_categories tools_by_category (split_csv disabled_categories) []
  disable_tools (all_known_tools tools_by_category) (split_csv disabled_tools) disabled

-- The name in a tools/call request, empty for a request of another shape.
abbrev pub call_tool_name : Request → Text
call_tool_name none = []
call_tool_name (some other_params) = []
call_tool_name (some (call_tool none)) = []
call_tool_name (some (call_tool (some p))) = p.name

-- The loop over the tools of a list: nil pointers and disabled tools are left out.
abbrev pub is_visible : List Text → Option Tool → Bool
is_visible disabled none = false
is_visible disabled (some t) = not (elem t.name disabled)

-- The rest of the `tools/list` case, for the result and the error that `next` returned.
unfoldable pub filter_result : List Text → McpResult → Option Error → McpResult
filter_result disabled r (some e) = r
filter_result disabled (list_tools tools) none = list_tools (keep (is_visible disabled) tools)
filter_result disabled r none = r

unfoldable pub tool_filter : List Text → MethodHandler → MethodHandler
tool_filter disabled_tools next ctx method req =
    if is_empty disabled_tools
    then next ctx method req
    else if text_eq method (codes "tools/call")
    then (if not (is_empty (call_tool_name req)) && elem (call_tool_name req) disabled_tools
        then record {
          result = no_result;
          error =
              some (errorf "tool %q is disabled by server configuration" (call_tool_name req ∷ []));
        }
        else next ctx method req)
    else if text_eq method (codes "tools/list")
    then (let res = next ctx method req in
        record { result = filter_result disabled_tools res.result res.error; error = res.error })
    else next ctx method req

categories_test :
    comma_separated (categories tools_by_category)
    ≡ codes "kernel, kubernetes, must-gather, network-tools, ovn, ovs, sosreport"
unfolding categories
categories_test = refl
