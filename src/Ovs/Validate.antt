-- ===== src/Ovs/Validate.antt =====
-- pkg/ovs/mcp/commands.go.
pub mod Laws
use ovn_kubernetes_mcp.Prelude.{
  ℕ, ◌==◌, Bool, false, not, ◌&&◌, ◌||◌, List, [], ◌∷◌, if◌then◌else◌, is_empty, every, errorf,
  reject_if, Result, ok, err, ◌>>◌,
}
use ovn_kubernetes_mcp.Text.{Text, codes, text_eq, is_alnum, is_letter}
use ovn_kubernetes_mcp.Utils.Validate.{validate_safe_string, default, allow_brackets}
use ovn_kubernetes_mcp.Ovs.Types.{
  vsctl_show, vsctl_list_br, vsctl_list_ports, vsctl_list_ifaces, ofctl_dump_flows,
  appctl_dump_conntrack, appctl_ofproto_trace,
}

abbrev pub default_max_lines : ℕ
default_max_lines = 100

-- `[a-zA-Z0-9_-]`
abbrev pub is_name_char : ℕ → Bool
is_name_char c = is_alnum c || c == b'_' || c == b'-'

-- `[a-zA-Z0-9x.:,/_-]`
abbrev pub is_value_char : ℕ → Bool
is_value_char c = is_name_char c || c == b'.' || c == b':' || c == b',' || c == b'/'

-- `-[a-zA-Z]`
abbrev pub is_flag : Text → Bool
is_flag [] = false
is_flag (c ∷ []) = false
is_flag (c ∷ d ∷ []) = c == b'-' && is_letter d
is_flag (c ∷ d ∷ e ∷ s) = false

-- `[a-zA-Z0-9_-]*=[a-zA-Z0-9x.:,/_-]+`: the first `=` ends the key, since no key holds one.
unfoldable pub key_then_value : Text → Bool
key_then_value [] = false
key_then_value (c ∷ s) =
    let rest = key_then_value s in
    if c == b'=' then not (is_empty s) && every is_value_char s else is_name_char c && rest

-- `^(-[a-zA-Z]|[a-zA-Z0-9_-]+=[a-zA-Z0-9x.:,/_-]+)$`
abbrev pub valid_conntrack_param : Text → Bool
valid_conntrack_param [] = false
valid_conntrack_param (c ∷ s) = is_flag (c ∷ s) || (is_name_char c && key_then_value s)

unfoldable pub validate_bridge_name : Text → Result (Unit {0})
validate_bridge_name [] = err (errorf "bridge name cannot be empty" [])
validate_bridge_name (c ∷ s) = reject_if (not (every is_name_char (c ∷ s))) (
    errorf
      "invalid bridge name %q: must contain only alphanumeric characters, hyphens, and underscores"
      ((c ∷ s) ∷ []))

unfoldable pub validate_flow_spec : Text → Result (Unit {0})
validate_flow_spec flow =
    validate_safe_string flow (codes "flow specification") false allow_brackets

unfoldable pub validate_conntrack_params : List Text → Result (Unit {0})
validate_conntrack_params [] = ok tt
validate_conntrack_params (param ∷ params) = do
  validate_safe_string param (codes "conntrack parameter") false default
  reject_if (not (valid_conntrack_param param)) (
      errorf
        "invalid conntrack parameter format %q: must be a flag (e.g., '-m') or key=value pair (e.g., 'zone=5')"
        (param ∷ []))
  validate_conntrack_params params

unfoldable pub validate_vsctl_action : Text → Result (Unit {0})
validate_vsctl_action action =
    if text_eq action vsctl_show
      || text_eq action vsctl_list_br
      || text_eq action vsctl_list_ports
      || text_eq action vsctl_list_ifaces
    then ok tt
    else err (
        errorf
          "invalid action %q: must be one of \"show\", \"list-br\", \"list-ports\", \"list-ifaces\""
          (action ∷ []))

unfoldable pub validate_ofctl_action : Text → Result (Unit {0})
validate_ofctl_action action =
    if text_eq action ofctl_dump_flows
    then ok tt
    else err (errorf "invalid action %q: must be one of \"dump-flows\"" (action ∷ []))

unfoldable pub validate_appctl_action : Text → Result (Unit {0})
validate_appctl_action action =
    if text_eq action appctl_dump_conntrack || text_eq action appctl_ofproto_trace
    then ok tt
    else err (
        errorf "invalid action %q: must be one of \"dpctl/dump-conntrack\", \"ofproto/trace\""
          (action ∷ []))
