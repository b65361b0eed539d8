-- ===== src/Kubernetes/Tools.antt =====
-- pkg/kubernetes/mcp: the tools for pods, nodes and resources.
pub mod Completes
pub mod Formatted
use ovn_kubernetes_mcp.Prelude.{
  ℕ, Bool, true, false, List, [], ◌∷◌, ◌++◌, Option, none, some, if◌then◌else◌, is_empty, keep, map,
  errorf, wrapf, Error, Result, ok, err,
}
use ovn_kubernetes_mcp.Text.{Text, codes, text_eq}
use ovn_kubernetes_mcp.Exec.{Context, DebugNode, PodExec}
use ovn_kubernetes_mcp.Utils.Lines.{strip_empty_lines}
use ovn_kubernetes_mcp.Utils.HeadTail.{HeadTailParams, apply}
use ovn_kubernetes_mcp.Utils.Pattern.{PatternParams, Regexp, pattern_test}
use ovn_kubernetes_mcp.MustGather.Omc.{json_output_type, yaml_output_type, wide_output_type}
use ovn_kubernetes_mcp.Kubernetes.Api.{
  GroupVersionKind, Object, ObjectList, leaf, Client, ◌>>=◌, ◌>>◌,
}
use ovn_kubernetes_mcp.Kubernetes.Client
use ovn_kubernetes_mcp.Kubernetes.DebugNode.{Wait, exec_in_pod, debug_node_command}
use ovn_kubernetes_mcp.Kubernetes.Output.{
  JsonPathParser, json_path_prefix, cut_prefix, validate_output_params, required, joined_with,
  no_error,
}

abbrev pub default_max_lines : ℕ
default_max_lines = 100

-- `types.Resource` with the fields of the types that it embeds.
pub record Resource : Type 0 where
  pub name : Text
  pub namespace : Text
  pub age : Text
  pub labels : List (Text × Text)
  pub annotations : List (Text × Text)
  pub data_text : Text

abbrev pub no_resource : Resource
no_resource = record {
  name = [];
  namespace = [];
  age = [];
  labels = [];
  annotations = [];
  data_text = [];
}

-- A resource with nothing but formatted data.
abbrev pub formatted : Result Text → Result Resource
formatted (ok text) = ok (record no_resource { data_text = text })
formatted (err e) = err e

-- The libraries that format an object, and `FormatAge` of the time since its creation.
pub record Formats : Type 0 where
  pub parse : JsonPathParser
  pub to_json : Object → Result Text
  pub to_yaml : Object → Result Text
  pub execute : Text → Text → Result Text
  pub age : ℕ → Text

module _ (f : Formats) where
  abbrev pub executed : Text → Result Text → Result Text
  executed template (ok text) = ok text
  executed template (err e) =
      err (wrapf "failed to execute jsonpath template %s, error: %w" (template ∷ []) e)

  -- `ToJSONPath`
  unfoldable pub to_json_path : Text → Text → Result Text
  to_json_path template content = elim (f.parse template) [
    | some e ↦ err e
    | none ↦ executed template (f.execute template content)
  ]

  -- `GetResourceData`
  unfoldable pub get_resource_data : Object → Bool → Resource
  get_resource_data o is_detailed =
      let r : Resource = record no_resource {
        name = o.name;
        namespace = o.namespace;
        age = f.age o.created;
      } in
      if is_detailed then record r { labels = o.labels; annotations = o.annotations } else r

  -- The switch on the output type, without the case of JSONPath.
  abbrev pub plain_format : Text → Object → Result Resource
  plain_format output_type o =
      if text_eq output_type json_output_type
      then formatted (f.to_json o)
      else if text_eq output_type yaml_output_type
      then formatted (f.to_yaml o)
      else ok (get_resource_data o (text_eq output_type wide_output_type))

  -- The switch of `GetResource`. The output types before its default case have no JSONPath prefix.
  unfoldable pub format_resource : Text → Object → Result Resource
  unfolding to_json_path get_resource_data
  format_resource output_type o =
      if text_eq output_type json_output_type
      then formatted (f.to_json o)
      else if text_eq output_type yaml_output_type
      then formatted (f.to_yaml o)
      else elim (cut_prefix output_type json_path_prefix) [
        | some template ↦ formatted (to_json_path template o.content)
        | none ↦ ok (get_resource_data o (text_eq output_type wide_output_type))
      ]

  -- The loop of `ListResources`.
  unfoldable pub format_each : Text → List Object → Result (List Resource)
  unfolding get_resource_data
  format_each output_type [] = ok []
  format_each output_type (o ∷ os) = elim (plain_format output_type o) [
    | err e ↦ err e
    | ok r ↦ elim (format_each output_type os) [ err e ↦ err e | ok rs ↦ ok (r ∷ rs) ]
  ]

  abbrev pub one : Result Resource → Result (List Resource)
  one (ok r) = ok (r ∷ [])
  one (err e) = err e

  unfoldable pub format_list : Text → ObjectList → Result (List Resource)
  unfolding to_json_path format_each
  format_list output_type l =
      if is_empty l.items then ok [] else elim (cut_prefix output_type json_path_prefix) [
        | some template ↦ one (formatted (to_json_path template l.content))
        | none ↦ format_each output_type l.items
      ]

  abbrev pub missing_kind : GroupVersionKind → Option Error
  missing_kind gvk =
      required (required none gvk.version (errorf "version is required" [])) gvk.kind
        (errorf "kind is required" [])

  unfoldable pub get_resource_tool :
      Context → GroupVersionKind → Text → Text → Text → Client Resource
  get_resource_tool ctx gvk name namespace output_type = do
    leaf (
        no_error (
          joined_with (required (missing_kind gvk) name (errorf "name is required" []))
            (validate_output_params f.parse output_type)))
    o ← Client.get_resource ctx gvk name namespace
    leaf (format_resource output_type o)

  unfoldable pub list_resources_tool :
      Context → GroupVersionKind → Text → Text → Text → Client (List Resource)
  list_resources_tool ctx gvk namespace label_selector output_type = do
    leaf (no_error (joined_with (missing_kind gvk) (validate_output_params f.parse output_type)))
    l ← Client.list_resources ctx gvk namespace label_selector
    leaf (format_list output_type l)

unfoldable pub pod_logs_tool :
    Regexp
    → Context
    → Text
    → Text
    → Text
    → Bool
    → PatternParams
    → HeadTailParams
    → Client (List Text)
pod_logs_tool compile ctx namespace name container previous p head_tail = do
  test ← leaf (pattern_test compile p)
  lines ← Client.get_pod_logs ctx namespace name container previous
  leaf (ok (apply head_tail (keep test (strip_empty_lines lines)) default_max_lines))

-- `RunPodExecCommand`, which goes through the handler `ExecPod`.
unfoldable pub run_pod_exec_command : PodExec → Client (Text × Text)
run_pod_exec_command c = exec_in_pod c.ctx c.name c.namespace c.container c.command

-- `RunDebugNode`
unfoldable pub run_debug_node : Wait → ℕ → ℕ → DebugNode → Client (Text × Text)
run_debug_node wait now later c = debug_node_command wait now later c
