-- ===== src/Kubernetes/Output.antt =====
-- pkg/kubernetes/types: the output types of a resource and their validation. `json.Marshal`, the YAML
-- and JSONPath libraries, and the age of an object, are parameters.
use ovn_kubernetes_mcp.Prelude.{
  not, ◌&&◌, [], ◌∷◌, ◌++◌, Option, none, some, if◌then◌else◌, is_empty, Error, errorf, wrapf,
  both_errors, Result, ok, err,
}
use ovn_kubernetes_mcp.Text.{Text, codes, text_eq, has_prefix, trim_prefix}
use ovn_kubernetes_mcp.MustGather.Omc.{
  json_output_type, yaml_output_type, wide_output_type, json_path_output_type,
}

abbrev pub json_path_prefix : Text
json_path_prefix = json_path_output_type ++ codes "="

-- `strings.CutPrefix`
unfoldable pub cut_prefix : Text → Text → Option Text
cut_prefix s prefix = if has_prefix s prefix then some (trim_prefix s prefix) else none

-- `jsonpath.Parse`: the error of a template, if it has one.
abbrev pub JsonPathParser : Type 0
JsonPathParser = Text → Option Error

abbrev pub template_error : JsonPathParser → Option Text → Option Error
template_error parse none = none
template_error parse (some template) = elim (parse template) [
  | none ↦ none
  | some e ↦ some (wrapf "invalid json_path_template: %s, error: %w" (template ∷ []) e)
]

unfoldable pub validate_output_params : JsonPathParser → Text → Option Error
validate_output_params parse output_type =
    if not (is_empty output_type)
      && not (text_eq output_type yaml_output_type)
      && not (text_eq output_type json_output_type)
      && not (text_eq output_type wide_output_type)
      && not (has_prefix output_type json_path_prefix)
    then some (errorf "invalid output_type: %s" (output_type ∷ []))
    else template_error parse (cut_prefix output_type json_path_prefix)

-- `err = errors.Join(err, e)`
abbrev pub join_errors : Option Error → Error → Option Error
join_errors none e = some e
join_errors (some d) e = some (both_errors d e)

abbrev pub required : Option Error → Text → Error → Option Error
required so_far value e = if is_empty value then join_errors so_far e else so_far

abbrev pub joined_with : Option Error → Option Error → Option Error
joined_with so_far none = so_far
joined_with so_far (some e) = join_errors so_far e

abbrev pub no_error : Option Error → Result (Unit {0})
no_error none = ok tt
no_error (some e) = err e
