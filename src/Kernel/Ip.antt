-- ===== src/Kernel/Ip.antt =====
-- pkg/kernel/mcp/ip.go. The commands are tried in the order of the source's literal: Go ranges over the
-- map in any order, and whether some command fits does not depend on it.
pub mod Shows
pub mod Allowed
use ovn_kubernetes_mcp.Text.{has_prefix, Text, codes, text_eq, trim_space, fields, is_atoi}
use ovn_kubernetes_mcp.Exec.{Context, M, ◌>>=◌, ◌>>◌, ret, done, wrap_all}
use ovn_kubernetes_mcp.Utils.CommandBuilder.{new_command, add, build, add_if_not_empty}
use ovn_kubernetes_mcp.Utils.Validate.{validate_safe_string, default}
use ovn_kubernetes_mcp.Utils.Timeout.{with_timeout}
use ovn_kubernetes_mcp.Kernel.Util.{utility_exists, execute_command, render}
use ovn_kubernetes_mcp.Kernel.Params.{ListIpParams, Config}
use ovn_kubernetes_mcp.Prelude.{
  any, is_empty, not, ◌||◌, false, reject_if, none, true, some, ◌&&◌, err, errorf, wrap, [], Bool,
  Option, List, ℕ, Error, Result, if◌then◌else◌, ◌∷◌,
}

abbrev pub valid_ip_commands : List Text
valid_ip_commands =
    codes "address"
    ∷ codes "link"
    ∷ codes "neighbour"
    ∷ codes "netns"
    ∷ codes "route"
    ∷ codes "rule"
    ∷ codes "vrf"
    ∷ codes "xfrm state"
    ∷ codes "xfrm policy"
    ∷ []

-- `strings.HasPrefix(commandFields[i], splitCommand[i])` for each i: `none` if the input is shorter or
-- one does not match, else the words behind.
unfoldable pub match_fields : List Text → List Text → Option (List Text)
match_fields [] words = some words
match_fields (f ∷ fs) [] = none
match_fields (f ∷ fs) (w ∷ words) = if has_prefix f w then match_fields fs words else none

-- One round of the loop, for a command with its fields and for the words of the input.
unfoldable pub fits_command : Text → List Text → List Text → Bool
fits_command command (f ∷ []) (w ∷ v ∷ words) = has_prefix command w && has_prefix (codes "show") v
fits_command command (f ∷ []) words = false
fits_command command command_fields words = elim (match_fields command_fields words) [
  | none ↦ false
  | some [] ↦ false
  | some (v ∷ rest) ↦
      (text_eq command (codes "xfrm state") || text_eq command (codes "xfrm policy"))
      && has_prefix (codes "list") v
]

abbrev pub ip_command_error : Text → Error
ip_command_error ip_command = errorf "invalid ip command: %s" (ip_command ∷ [])

-- The tests on the words of the input.
unfoldable pub validate_ip_words : Error → List Text → Result (Unit {0})
validate_ip_words e (w ∷ v ∷ words) =
    if has_prefix w (codes "l") && text_eq v (codes "s")
    then err e
    else reject_if
        (not (
          any (λ command. fits_command command (fields command) (w ∷ v ∷ words)) valid_ip_commands))
        e
validate_ip_words e words = err e

unfoldable pub validate_ip_command : Text → Result (Unit {0})
validate_ip_command ip_command =
    if is_atoi ip_command
    then err (ip_command_error ip_command)
    else validate_ip_words (ip_command_error ip_command) (fields (trim_space ip_command))

abbrev pub ip_error : {A : Type 0} → Result A → M A
ip_error r = ret (wrap "error while getting ip data: %w" [] r)

-- The argument vector that `GetIPCommandOutput` builds.
unfoldable pub ip_args : Text → Text → Text → List Text
ip_args options command filter_parameters =
    let with_options = add_if_not_empty (new_command (codes "ip" ∷ [])) options (fields options) in
    let with_command = add with_options (fields command) in
    build (add_if_not_empty with_command filter_parameters (fields filter_parameters))

unfoldable pub get_ip_command_output : Config → ℕ → Context → ListIpParams → M Text
get_ip_command_output cfg now parent inp = do
  let ctx = with_timeout now inp.timeout parent
  wrap_all
      "error while getting ip data: failed to verify ip utility availability in configured image: %w"
      [] (utility_exists cfg ctx inp.namespace inp.node (codes "ip"))
  ip_error (validate_ip_command inp.command)
  ip_error (validate_safe_string inp.filter_parameters (codes "filter parameters") true default)
  ip_error (validate_safe_string inp.options (codes "options") true default)
  (stdout, stderr) ← wrap_all "error while getting ip data: %w" [] (
      execute_command cfg ctx inp.namespace inp.node
        (ip_args inp.options inp.command inp.filter_parameters))
  ret (reject_if (not (is_empty stderr)) (errorf "error while running command: %s" (stderr ∷ [])))
  done (render inp.head_tail stdout)
