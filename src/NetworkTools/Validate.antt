-- ===== src/NetworkTools/Validate.antt =====
-- pkg/network-tools/mcp/utils.go.
pub mod Laws
use ovn_kubernetes_mcp.Exec.{Reply}
use ovn_kubernetes_mcp.Prelude.{
  none, some, is_empty, ◌==◌, reject_if, true, not, ◌||◌, [], every, errorf, ◌&&◌, ◌∷◌, ltb, ok,
  err, Result, ℕ, false, Bool, if◌then◌else◌,
}
use ovn_kubernetes_mcp.Prelude.Int.{is_zero, ℤ, pos, negsuc, is_negative}
use ovn_kubernetes_mcp.Text.{Text, codes, len, text_eq, is_alnum}
use ovn_kubernetes_mcp.Utils.Validate.{validate_safe_string, disallow_special_characters}

-- `^[a-zA-Z0-9][a-zA-Z0-9._-]*$`
abbrev pub interface_name_pattern : Text → Bool
interface_name_pattern [] = false
interface_name_pattern (c ∷ s) =
    is_alnum c && every (λ d. is_alnum d || d == b'.' || d == b'_' || d == b'-') s

unfoldable pub validate_interface : Text → Result (Unit {0})
validate_interface [] = ok tt
validate_interface (c ∷ s) =
    if text_eq (c ∷ s) (codes "any")
    then ok tt
    else if ltb 15 (len (c ∷ s))
    then err (errorf "interface name too long: %s" ((c ∷ s) ∷ []))
    else reject_if (not (interface_name_pattern (c ∷ s)))
        (errorf "invalid interface name: %s" ((c ∷ s) ∷ []))

unfoldable pub validate_packet_filter : Text → Result (Unit {0})
validate_packet_filter filter =
    if ltb 1024 (len filter)
    then err (errorf "packet filter too long (max 1024 characters)" [])
    else validate_safe_string filter (codes "packet filter") true disallow_special_characters

-- `value > max`, for a bound that is not negative.
abbrev pub exceeds : ℤ → ℕ → Bool
exceeds (pos n) bound = ltb bound n
exceeds (negsuc n) bound = false

unfoldable pub validate_int_max : ℤ → ℕ → Text → Text → Result (Unit {0})
validate_int_max value bound field_name unit =
    if is_negative value
    then err (errorf "%s cannot be negative" (field_name ∷ []))
    else if exceeds value bound
    then (if not (is_empty unit)
        then err (errorf "%s cannot exceed %d %s" (field_name ∷ (bound ∷ []) ∷ unit ∷ []))
        else err (errorf "%s cannot exceed %d" (field_name ∷ (bound ∷ []) ∷ [])))
    else ok tt

-- `if value == 0 { value = def }`.
abbrev pub or_default : ℤ → ℕ → ℤ
or_default value def = if is_zero value then pos def else value

-- `Config` of pkg/network-tools/mcp/mcp.go, the images of the debug pods.
pub record Config : Type 0 where
  pub pwru_image : Text
  pub tcpdump_image : Text

-- `CommandResult` of pkg/network-tools/types/manifest.go.
pub record CommandResult : Type 0 where
  pub output : Text
  pub stderr : Text

-- The end of both handlers: the error of the call as it is, else both outputs.
abbrev pub command_result : Reply → Result CommandResult
command_result r = elim r.error [
  | none ↦ ok (record { output = r.stdout; stderr = r.stderr })
  | some e ↦ err e
]
