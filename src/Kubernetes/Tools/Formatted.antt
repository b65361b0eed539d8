-- ===== src/Kubernetes/Tools/Formatted.antt =====
-- What the output type of a request asks for, and the namespace that it means: pkg/kubernetes/types,
-- pkg/kubernetes/client and pkg/kubernetes/mcp/resource.go.
use mathlib.Core.Path.{subst}
use ovn_kubernetes_mcp.Text.Laws.{has_prefix_iff, text_eq_iff}
use ovn_kubernetes_mcp.Kubernetes.Client.{default_if, namespaced_kind}
use ovn_kubernetes_mcp.Text.Suffixes.{trim_prefix-append}
use ovn_kubernetes_mcp.Text.{has_prefix, text_eq, codes, Text}
use ovn_kubernetes_mcp.Kubernetes.Api.{ApiResource, Object, GroupVersionKind}
use ovn_kubernetes_mcp.Kubernetes.Tools.{
  get_resource_data, to_json_path, format_resource, Resource, formatted, executed, Formats,
}
use ovn_kubernetes_mcp.Prelude.{
  sym, Bool-cases, inr, arith, inl, Option-cases, wrapf, false, refl, true, is_empty, ◌≢◌, err, ◌⊎◌,
  ◌∷◌, if◌then◌else◌, Bool, ◌++◌, Error, ok, [], none, ◌≡◌, List, Result,
}
use ovn_kubernetes_mcp.Kubernetes.Output.{cut_prefix, JsonPathParser, validate_output_params}

-- A resource whose only field is the text of `found`, or the error of `found`.
pub data IsDataOf (found : Result Text) : Result Resource → Type 0 where
  data_text_of :
      (text : Text)
      → found ≡ ok text
      → IsDataOf found (
          ok (record {
            name = [];
            namespace = [];
            age = [];
            labels = [];
            annotations = [];
            data_text = text;
          }))
  data_error_of : (e : Error) → found ≡ err e → IsDataOf found (err e)

-- The error of a template names the template.
pub data IsExecuted (template : Text) (found : Result Text) : Result Text → Type 0 where
  executed_to : (text : Text) → found ≡ ok text → IsExecuted template found (ok text)
  not_executed :
      (e : Error)
      → found ≡ err e
      → IsExecuted template found
          (err (wrapf "failed to execute jsonpath template %s, error: %w" (template ∷ []) e))

-- The five output types, and what each shows of an object.
pub data InFormat (f : Formats) (o : Object) : Text → Result Resource → Type 0 where
  in_json : (r : Result Resource) → IsDataOf (f.to_json o) r → InFormat f o (codes "json") r
  in_yaml : (r : Result Resource) → IsDataOf (f.to_yaml o) r → InFormat f o (codes "yaml") r
  in_json_path :
      (template : Text) (text : Result Text) (r : Result Resource)
      → IsExecuted template (f.execute template o.content) text
      → IsDataOf text r
      → InFormat f o (codes "jsonpath=" ++ template) r
  in_wide : InFormat f o (codes "wide") (
      ok (record {
        name = o.name;
        namespace = o.namespace;
        age = f.age o.created;
        labels = o.labels;
        annotations = o.annotations;
        data_text = [];
      }))
  in_brief : InFormat f o [] (
      ok (record {
        name = o.name;
        namespace = o.namespace;
        age = f.age o.created;
        labels = [];
        annotations = [];
        data_text = [];
      }))

-- Whether the first of the resources that has the kind has namespaces; if there is none, it has not.
pub data IsNamespaced (kind : Text) : List ApiResource → Bool → Type 0 where
  unknown_kind : IsNamespaced kind [] false
  first_kind :
      (r : ApiResource) (rs : List ApiResource)
      → r.kind ≡ kind
      → IsNamespaced kind (r ∷ rs) r.namespaced
  other_kind :
      (r : ApiResource) (rs : List ApiResource) (b : Bool)
      → r.kind ≢ kind
      → IsNamespaced kind rs b
      → IsNamespaced kind (r ∷ rs) b

-- The namespace that a request means: the one that it gives, otherwise `default` for a kind that has
-- namespaces, and none for another.
pub data IsMeant (kind : Text) (resources : List ApiResource) : Text → Text → Type 0 where
  given_namespace : (namespace : Text) → namespace ≢ [] → IsMeant kind resources namespace namespace
  default_namespace : IsNamespaced kind resources true → IsMeant kind resources [] (codes "default")
  no_namespace : IsNamespaced kind resources false → IsMeant kind resources [] []

namespaced_kind-IsNamespaced :
    (kind : Text) (resources : List ApiResource) (b : Bool)
    → IsNamespaced kind resources b
    → namespaced_kind kind resources ≡ b
namespaced_kind-IsNamespaced kind _ _ unknown_kind = refl
namespaced_kind-IsNamespaced kind _ _ (first_kind r rs e) = rw ((text_eq_iff r.kind kind).1 e) refl
namespaced_kind-IsNamespaced kind _ _ (other_kind r rs b n h) =
    let other : text_eq r.kind kind ≡ false = ground (arith, text_eq_iff r.kind kind) in
    rw (other, namespaced_kind-IsNamespaced kind rs b h) refl

-- The namespace that the code reads from.
abbrev pub namespace_used : GroupVersionKind → Text → List ApiResource → Text
namespace_used gvk namespace resources =
    if is_empty namespace then default_if (namespaced_kind gvk.kind resources) else namespace

pub namespace_used-IsMeant :
    (gvk : GroupVersionKind) (namespace : Text) (resources : List ApiResource) (used : Text)
    → IsMeant gvk.kind resources namespace used
    → namespace_used gvk namespace resources ≡ used
namespace_used-IsMeant gvk _ resources _ (given_namespace [] n) = absurd (n refl)
namespace_used-IsMeant gvk _ resources _ (given_namespace (c ∷ s) n) = refl
namespace_used-IsMeant gvk _ resources _ (default_namespace h) =
    rw (namespaced_kind-IsNamespaced gvk.kind resources true h) refl
namespace_used-IsMeant gvk _ resources _ (no_namespace h) =
    rw (namespaced_kind-IsNamespaced gvk.kind resources false h) refl

formatted-IsDataOf : (found : Result Text) → IsDataOf found (formatted found)
formatted-IsDataOf (ok text) = data_text_of text refl
formatted-IsDataOf (err e) = data_error_of e refl

executed-IsExecuted :
    (f : Formats) (template : Text) (found : Result Text)
    → IsExecuted template found (executed f template found)
executed-IsExecuted f template (ok text) = executed_to text refl
executed-IsExecuted f template (err e) = not_executed e refl

-- The output types that pass the validation.
abbrev IsOutputType : JsonPathParser → Text → Type 0
IsOutputType parse t =
    (t ≡ [])
    ⊎ (t ≡ codes "json")
    ⊎ (t ≡ codes "yaml")
    ⊎ (t ≡ codes "wide")
    ⊎ ((template : Text) × (t ≡ codes "jsonpath=" ++ template) × (parse template ≡ none))

json_path_type :
    (parse : JsonPathParser) (template : Text)
    → validate_output_params parse (codes "jsonpath=" ++ template) ≡ none
    → parse template ≡ none
unfolding validate_output_params cut_prefix
json_path_type parse template h =
    let cut = trim_prefix-append (codes "jsonpath=") template in
    elim (Option-cases (parse template)) [
      | inl e ↦ e
      | inr (e, k) ↦ let bad = rw (cut, k) at h in cc
    ]

validated-IsOutputType :
    (parse : JsonPathParser) (t : Text)
    → validate_output_params parse t ≡ none
    → IsOutputType parse t
unfolding validate_output_params
validated-IsOutputType parse [] h = inl refl
validated-IsOutputType parse (c ∷ s) h =
    let t : Text = c ∷ s in
    elim (Bool-cases (text_eq t (codes "yaml"))) [
      | inl e ↦ inr (inr (inl ((text_eq_iff t _).0 e)))
      | inr not_yaml ↦ elim (Bool-cases (text_eq t (codes "json"))) [
        | inl e ↦ inr (inl ((text_eq_iff t _).0 e))
        | inr not_json ↦ elim (Bool-cases (text_eq t (codes "wide"))) [
          | inl e ↦ inr (inr (inr (inl ((text_eq_iff t _).0 e))))
          | inr not_wide ↦ elim (Bool-cases (has_prefix t (codes "jsonpath="))) [
            | inl e ↦
                let (template, whole) = (has_prefix_iff t (codes "jsonpath=")).0 e in
                inr (
                  inr (
                    inr (
                      inr (
                        template,
                        whole,
                        json_path_type parse template
                            (subst (λ (u : Text). validate_output_params parse u ≡ none) whole h),
                      ))))
            | inr no_prefix ↦ let bad = rw (not_yaml, not_json, not_wide, no_prefix) at h in cc
          ]
        ]
      ]
    ]

to_json_path_lem :
    (f : Formats) (template content : Text)
    → f.parse template ≡ none
    → to_json_path f template content ≡ executed f template (f.execute template content)
unfolding to_json_path
to_json_path_lem f template content h = rw (h, to_json_path) refl

json_path_format :
    (f : Formats) (o : Object) (template : Text)
    → f.parse template ≡ none
    → InFormat f o
        (codes "jsonpath=" ++ template)
        (format_resource f (codes "jsonpath=" ++ template) o)
unfolding format_resource cut_prefix
json_path_format f o template h =
    let cut = trim_prefix-append (codes "jsonpath=") template in
    rw (cut, to_json_path_lem f template o.content h)
      (in_json_path template _ _ (executed-IsExecuted f template _) (formatted-IsDataOf _))

format_resource-IsOutputType :
    (f : Formats) (o : Object) (t : Text)
    → IsOutputType f.parse t
    → InFormat f o t (format_resource f t o)
unfolding format_resource get_resource_data cut_prefix
format_resource-IsOutputType f o t (inl e) =
    subst (λ (u : Text). InFormat f o u (format_resource f u o)) (sym e) in_brief
format_resource-IsOutputType f o t (inr (inl e)) = rw e (in_json _ (formatted-IsDataOf _))
format_resource-IsOutputType f o t (inr (inr (inl e))) = rw e (in_yaml _ (formatted-IsDataOf _))
format_resource-IsOutputType f o t (inr (inr (inr (inl e)))) =
    subst (λ (u : Text). InFormat f o u (format_resource f u o)) (sym e) in_wide
format_resource-IsOutputType f o t (inr (inr (inr (inr (template, e, h))))) =
    rw e (json_path_format f o template h)

-- An output type that passes the validation is one of the five, and an object is formatted as it says.
pub format_resource-InFormat :
    (f : Formats) (o : Object) (t : Text)
    → validate_output_params f.parse t ≡ none
    → InFormat f o t (format_resource f t o)
format_resource-InFormat f o t h =
    format_resource-IsOutputType f o t (validated-IsOutputType f.parse t h)
