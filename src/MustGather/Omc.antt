-- ===== src/MustGather/Omc.antt =====
-- pkg/must-gather/omc-client. A call validates its parameters, takes the client's lock, selects the
-- must-gather by `omc use PATH`, runs `omc` with its arguments and releases the lock: what it does under
-- the lock is a session, and Interleaved runs sessions against each other. What the operating system
-- answers to a command, and whether the path holds a must-gather, is left open there.
pub mod Names
pub mod Laws
pub mod Interleaved
use ovn_kubernetes_mcp.Prelude.{
  ℕ, ◌+◌, ◌==◌, between, Bool, true, false, not, ◌&&◌, ◌||◌, List, [], ◌∷◌, ◌++◌, map, Option, none,
  some, if◌then◌else◌, is_empty, errorf, wrapf, wrap, reject_if, Error, Result, ok, err, ◌>>=◌,
  ◌>>◌,
}
use ovn_kubernetes_mcp.Text.{Text, codes, text_eq, has_prefix, contains, is_digit}
use ovn_kubernetes_mcp.Files.{Outcome}
use ovn_kubernetes_mcp.Utils.Validate.{validate_safe_string, allow_brackets}

-- `strings.ToLower`, as far as ASCII goes: U+212A and U+0130 are the characters outside of it with a
-- lower case in it. The lower case of the others is outside of ASCII, as they are.
abbrev pub lower_char : ℕ → ℕ
lower_char c =
    if between b'A' b'Z' c
    then c + 32
    else if c == 0x212a
    then b'k'
    else if c == 0x130
    then b'i'
    else c

abbrev pub to_lower : Text → Text
to_lower s = map lower_char s

abbrev pub is_lower_alnum : ℕ → Bool
is_lower_alnum c = between b'a' b'z' c || is_digit c

-- `([a-z0-9._-]*[a-z0-9])?$`
abbrev pub ends_in_alnum : Text → Bool
ends_in_alnum [] = true
ends_in_alnum (c ∷ []) = is_lower_alnum c
ends_in_alnum (c ∷ d ∷ s) =
    (is_lower_alnum c || c == b'.' || c == b'_' || c == b'-') && ends_in_alnum (d ∷ s)

-- `^[a-z0-9]([a-z0-9._-]*[a-z0-9])?$`
abbrev pub kubernetes_name_pattern : Text → Bool
kubernetes_name_pattern [] = false
kubernetes_name_pattern (c ∷ s) = is_lower_alnum c && ends_in_alnum s

unfoldable pub validate_kubernetes_name : Text → Bool → Result (Unit {0})
validate_kubernetes_name [] allow_empty =
    if allow_empty then ok tt else err (errorf "field cannot be empty" [])
validate_kubernetes_name (c ∷ s) allow_empty = do
  reject_if (has_prefix (c ∷ s) (codes "-"))
      (errorf "name cannot start with '-': %s" ((c ∷ s) ∷ []))
  reject_if (not (kubernetes_name_pattern (to_lower (c ∷ s))))
      (errorf "invalid name format: %s" ((c ∷ s) ∷ []))

unfoldable pub validate_label_selector : Text → Result (Unit {0})
validate_label_selector selector =
    validate_safe_string selector (codes "label selector") true allow_brackets

-- What a call does under the lock: the must-gather it selects, and the arguments it runs `omc` with.
pub record Session : Type 0 where
  pub path : Text
  pub args : List Text

abbrev pub json_output_type : Text
json_output_type = codes "json"

abbrev pub yaml_output_type : Text
yaml_output_type = codes "yaml"

abbrev pub wide_output_type : Text
wide_output_type = codes "wide"

abbrev pub json_path_output_type : Text
json_path_output_type = codes "jsonpath"

unfoldable pub append_output_type_args : List Text → Text → List Text
append_output_type_args args output_type =
    if text_eq output_type json_output_type
    then args ++ (codes "-o" ∷ codes "json" ∷ [])
    else if text_eq output_type yaml_output_type
    then args ++ (codes "-o" ∷ codes "yaml" ∷ [])
    else if text_eq output_type wide_output_type
    then args ++ (codes "-o" ∷ codes "wide" ∷ [])
    else if has_prefix output_type (json_path_output_type ++ codes "=")
    then args ++ (codes "-o" ∷ output_type ∷ [])
    else args

-- `GetResource` up to its session, and its result from the outcome of the command.
unfoldable pub get_resource : Text → Text → Text → Text → Text → Result Session
get_resource path kind namespace name output_type = do
  wrap "failed to validate kind: %w" [] (validate_kubernetes_name kind false)
  wrap "failed to validate name: %w" [] (validate_kubernetes_name name false)
  wrap "failed to validate namespace: %w" [] (validate_kubernetes_name namespace true)
  let used = if is_empty namespace then codes "default" else namespace
  let args = (codes "get" ∷ kind ∷ name ∷ []) ++ (codes "-n" ∷ used ∷ [])
  ok (record { path = path; args = append_output_type_args args output_type })

unfoldable pub get_resource_result : Text → Text → Text → Outcome → Result Text
get_resource_result kind name namespace o = elim o.error [
  | some e ↦ err (wrapf "failed to get resource. output: %s, error: %w" (o.output ∷ []) e)
  | none ↦
      (if contains (to_lower o.output) (codes "no resources")
        then err (
            errorf "failed to get resource %s with name %s in namespace %s: %s"
              (kind ∷ name ∷ namespace ∷ o.output ∷ []))
        else ok o.output)
]

-- `ListResources` up to its session, and its result from the outcome of the command.
unfoldable pub list_resources : Text → Text → Text → Text → Text → Result Session
list_resources path kind namespace label_selector output_type = do
  wrap "failed to validate kind: %w" [] (validate_kubernetes_name kind false)
  wrap "failed to validate namespace: %w" [] (validate_kubernetes_name namespace true)
  wrap "failed to validate label selector: %w" [] (validate_label_selector label_selector)
  let base = codes "get" ∷ kind ∷ []
  let selected =
      if not (is_empty label_selector) then base ++ (codes "-l" ∷ label_selector ∷ []) else base
  let formatted = append_output_type_args selected output_type
  let args =
      if not (is_empty namespace)
      then formatted ++ (codes "-n" ∷ namespace ∷ [])
      else formatted ++ (codes "-A" ∷ [])
  ok (record { path = path; args = args })

-- `{"apiVersion": "v1", "kind": "List", "items": []}` as the source lays it out.
abbrev pub empty_json_list : Text
empty_json_list = codes "{\n  \"apiVersion\": \"v1\",\n  \"kind\": \"List\",\n  \"items\": []\n}"

abbrev pub empty_yaml_list : Text
empty_yaml_list = codes "apiVersion: v1\nkind: List\nitems: []"

unfoldable pub list_resources_result : Text → Outcome → Result Text
list_resources_result output_type o = elim o.error [
  | some e ↦ err (wrapf "failed to list resources. output: %s, error: %w" (o.output ∷ []) e)
  | none ↦
      (if contains (to_lower o.output) (codes "no resources")
        then (if text_eq output_type json_output_type
            then ok empty_json_list
            else if text_eq output_type yaml_output_type
            then ok empty_yaml_list
            else ok [])
        else ok o.output)
]

-- `GetPodLogs` up to its session.
unfoldable pub get_pod_logs : Text → Text → Text → Text → Bool → Bool → Result Session
get_pod_logs path namespace name container previous rotated = do
  wrap "failed to validate name: %w" [] (validate_kubernetes_name name false)
  wrap "failed to validate namespace: %w" [] (validate_kubernetes_name namespace true)
  wrap "failed to validate container: %w" [] (validate_kubernetes_name container true)
  let base = codes "logs" ∷ name ∷ []
  let in_container =
      if not (is_empty container) then base ++ (codes "-c" ∷ container ∷ []) else base
  let in_namespace =
      if not (is_empty namespace)
      then in_container ++ (codes "-n" ∷ namespace ∷ [])
      else in_container
  let of_previous = if previous then in_namespace ++ (codes "-p" ∷ []) else in_namespace
  let args = if rotated then of_previous ++ (codes "-r" ∷ []) else of_previous
  ok (record { path = path; args = args })

-- `GetOvnKInfo` up to its session.
unfoldable pub get_ovnk_info : Text → Text → Result Session
get_ovnk_info path info_type =
    if text_eq info_type (codes "extrainfo")
    then ok (record { path = path; args = codes "ovnk" ∷ codes "extrainfo" ∷ [] })
    else if text_eq info_type (codes "hostnetinfo")
    then ok (record { path = path; args = codes "ovnk" ∷ codes "hostnetinfo" ∷ [] })
    else if text_eq info_type (codes "subnets")
    then ok (record { path = path; args = codes "ovnk" ∷ codes "subnets" ∷ [] })
    else err (errorf "invalid info type: %s" (info_type ∷ []))
