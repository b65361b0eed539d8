-- ===== src/MustGather/Omc/Laws.antt =====
-- The arguments of the sessions of pkg/must-gather/omc-client.
use ovn_kubernetes_mcp.MustGather.Omc.Names.{optional, IsOptionalName, required, IsName, of_ok}
use ovn_kubernetes_mcp.Text.Laws.{text_eq_iff}
use ovn_kubernetes_mcp.Prelude.{
  append-nil, ◌≡◌, refl, ◌⊎◌, inl, inr, Bool, true, false, not, List, [], ◌∷◌, ◌++◌, All,
  Bool-cases, ok, wrap-eq-ok, then-eq-ok, is_empty, if◌then◌else◌, append-nil, sym, ap, ◌∙◌,
}
use ovn_kubernetes_mcp.Text.{Text, codes, has_prefix, text_eq}
use ovn_kubernetes_mcp.Utils.CommandBuilder.{when_given}
use ovn_kubernetes_mcp.Utils.Validate.{allow_brackets}
use ovn_kubernetes_mcp.Utils.Validate.Laws.{Admits, validate_safe_string-All}
use ovn_kubernetes_mcp.MustGather.Omc.{
  validate_label_selector, Session, append_output_type_args, get_resource, list_resources,
  get_pod_logs, json_output_type, yaml_output_type, wide_output_type,
}

-- No format, or one of the four that `omc` is asked for.
pub data IsFormat (output_type : Text) : List Text → Type 0 where
  no_format : IsFormat output_type []
  format :
      (output_type ≡ codes "json")
        ⊎ (output_type ≡ codes "yaml")
        ⊎ (output_type ≡ codes "wide")
        ⊎ (has_prefix output_type (codes "jsonpath=") ≡ true)
      → IsFormat output_type (codes "-o" ∷ output_type ∷ [])

append_output_type_args-IsFormat :
    (args : List Text) (output_type : Text)
    → (flags : List Text) × IsFormat output_type flags
      × (append_output_type_args args output_type ≡ args ++ flags)
unfolding append_output_type_args
append_output_type_args-IsFormat args t = elim (Bool-cases (text_eq t json_output_type)) [
  | inl e ↦ let same = (text_eq_iff t json_output_type).0 e in (_, format (inl same), rw (e, same))
  | inr e ↦ elim (Bool-cases (text_eq t yaml_output_type)) [
    | inl f ↦
        let same = (text_eq_iff t yaml_output_type).0 f in
        (_, format (inr (inl same)), rw (e, f, same))
    | inr f ↦ elim (Bool-cases (text_eq t wide_output_type)) [
      | inl g ↦
          let same = (text_eq_iff t wide_output_type).0 g in
          (_, format (inr (inr (inl same))), rw (e, f, g, same))
      | inr g ↦ elim (Bool-cases (has_prefix t (codes "jsonpath="))) [
        | inl k ↦ (_, format (inr (inr (inr k))), rw (e, f, g, k))
        | inr k ↦ ([], no_format, rw (e, f, g, k, append-nil))
      ]
    ]
  ]
]

-- `omc get KIND NAME -n NAMESPACE [-o FORMAT]`.
pub record IsGet (path kind namespace name output_type : Text) (s : Session) : Type 0 where
  pub same_path : s.path ≡ path
  pub kind_name : IsName kind
  pub name_name : IsName name
  pub namespace_name : IsOptionalName namespace
  pub flags : List Text
  pub formats : IsFormat output_type flags
  pub args :
      s.args
      ≡ codes "get"
        ∷ kind
        ∷ name
        ∷ codes "-n"
        ∷ (if is_empty namespace then codes "default" else namespace)
        ∷ flags

-- An accepted call of `GetResource` runs `omc get KIND NAME -n NAMESPACE [-o FORMAT]` on the must-gather
-- of the request. The kind, the name and the namespace are names, so none of them is an option; the
-- namespace is `default` when it is not given.
pub get_resource-IsGet :
    (path kind namespace name output_type : Text) (s : Session)
    → get_resource path kind namespace name output_type ≡ ok s
    → IsGet path kind namespace name output_type s
unfolding get_resource
get_resource-IsGet path kind namespace name output_type s h =
    let (kind_ok, h1) = then-eq-ok _ _ h in
    let (name_ok, h2) = then-eq-ok _ _ h1 in
    let (namespace_ok, h3) = then-eq-ok _ _ h2 in
    let (flags, formats, e) = append_output_type_args-IsFormat _ output_type in
    of_ok (IsGet path kind namespace name output_type) h3 (record {
      same_path = refl;
      kind_name = required kind (wrap-eq-ok _ _ _ kind_ok);
      name_name = required name (wrap-eq-ok _ _ _ name_ok);
      namespace_name = optional namespace (wrap-eq-ok _ _ _ namespace_ok);
      flags = flags;
      formats = formats;
      args = e;
    })

-- `omc get KIND [-l SELECTOR] [-o FORMAT] -n NAMESPACE`, or `-A` in place of a namespace.
pub record IsList (path kind namespace label_selector output_type : Text) (s : Session)
    : Type 0 where
  pub same_path : s.path ≡ path
  pub kind_name : IsName kind
  pub namespace_name : IsOptionalName namespace
  pub selector_safe : All (Admits allow_brackets) label_selector
  pub flags : List Text
  pub formats : IsFormat output_type flags
  pub args :
      s.args
      ≡ (codes "get" ∷ kind ∷ when_given label_selector (codes "-l" ∷ label_selector ∷ []))
        ++ flags
        ++ (if is_empty namespace then codes "-A" ∷ [] else codes "-n" ∷ namespace ∷ [])

select_args :
    (kind label_selector : Text)
    → (if not (is_empty label_selector)
        then (codes "get" ∷ kind ∷ []) ++ (codes "-l" ∷ label_selector ∷ [])
        else codes "get" ∷ kind ∷ [])
      ≡ codes "get" ∷ kind ∷ when_given label_selector (codes "-l" ∷ label_selector ∷ [])
select_args kind [] = refl
select_args kind (c ∷ t) = refl

namespace_args :
    (args : List Text) (namespace : Text)
    → (if not (is_empty namespace)
        then args ++ (codes "-n" ∷ namespace ∷ [])
        else args ++ (codes "-A" ∷ []))
      ≡ args ++ (if is_empty namespace then codes "-A" ∷ [] else codes "-n" ∷ namespace ∷ [])
namespace_args args [] = refl
namespace_args args (c ∷ t) = refl

-- An accepted call of `ListResources` runs `omc get KIND [-l SELECTOR] [-o FORMAT] -n NAMESPACE` on the
-- must-gather of the request, with `-A` in place of a namespace that is not given. The kind and the
-- namespace are names, so neither is an option, and the selector holds no shell metacharacter but
-- brackets.
pub list_resources-IsList :
    (path kind namespace label_selector output_type : Text) (s : Session)
    → list_resources path kind namespace label_selector output_type ≡ ok s
    → IsList path kind namespace label_selector output_type s
unfolding list_resources validate_label_selector
list_resources-IsList path kind namespace label_selector output_type s h =
    let (kind_ok, h1) = then-eq-ok _ _ h in
    let (namespace_ok, h2) = then-eq-ok _ _ h1 in
    let (selector_ok, h3) = then-eq-ok _ _ h2 in
    let (flags, formats, e) =
      append_output_type_args-IsFormat
        (codes "get" ∷ kind ∷ when_given label_selector (codes "-l" ∷ label_selector ∷ []))
        output_type in
    of_ok (IsList path kind namespace label_selector output_type) h3 (record {
      same_path = refl;
      kind_name = required kind (wrap-eq-ok _ _ _ kind_ok);
      namespace_name = optional namespace (wrap-eq-ok _ _ _ namespace_ok);
      selector_safe =
          validate_safe_string-All label_selector _ true allow_brackets
            (wrap-eq-ok _ _ _ selector_ok);
      flags = flags;
      formats = formats;
      args =
          namespace_args _ namespace
          ∙ ap
              (λ (args : List Text).
                append_output_type_args args output_type
                ++ (if is_empty namespace then codes "-A" ∷ [] else codes "-n" ∷ namespace ∷ []))
              (select_args kind label_selector)
          ∙ ap
              (λ (args : List Text).
                args
                ++ (if is_empty namespace then codes "-A" ∷ [] else codes "-n" ∷ namespace ∷ []))
              e;
    })

-- `omc logs NAME [-c CONTAINER] [-n NAMESPACE] [-p] [-r]`.
pub record IsLogs (path namespace name container : Text) (previous rotated : Bool) (s : Session)
    : Type 0 where
  pub same_path : s.path ≡ path
  pub name_name : IsName name
  pub namespace_name : IsOptionalName namespace
  pub container_name : IsOptionalName container
  pub args :
      s.args
      ≡ (codes "logs" ∷ name ∷ when_given container (codes "-c" ∷ container ∷ []))
        ++ when_given namespace (codes "-n" ∷ namespace ∷ [])
        ++ (if previous then codes "-p" ∷ [] else [])
        ++ (if rotated then codes "-r" ∷ [] else [])

given_args :
    (args : List Text) (value : Text) (words : List Text)
    → (if not (is_empty value) then args ++ words else args) ≡ args ++ when_given value words
given_args args [] words = sym (append-nil args)
given_args args (c ∷ t) words = refl

flag_args :
    (b : Bool) (args words : List Text)
    → (if b then args ++ words else args) ≡ args ++ (if b then words else [])
flag_args true args words = refl
flag_args false args words = sym (append-nil args)

-- An accepted call of `GetPodLogs` of the omc client runs
-- `omc logs NAME [-c CONTAINER] [-n NAMESPACE] [-p] [-r]` on the must-gather of the request, with the
-- options of what is given and asked for. The name, the container and the namespace are names, so none
-- of them is an option.
pub get_pod_logs-IsLogs :
    (path namespace name container : Text) (previous rotated : Bool) (s : Session)
    → get_pod_logs path namespace name container previous rotated ≡ ok s
    → IsLogs path namespace name container previous rotated s
unfolding get_pod_logs
get_pod_logs-IsLogs path namespace name container previous rotated s h =
    let (name_ok, h1) = then-eq-ok _ _ h in
    let (namespace_ok, h2) = then-eq-ok _ _ h1 in
    let (container_ok, h3) = then-eq-ok _ _ h2 in
    of_ok (IsLogs path namespace name container previous rotated) h3 (record {
      same_path = refl;
      name_name = required name (wrap-eq-ok _ _ _ name_ok);
      namespace_name = optional namespace (wrap-eq-ok _ _ _ namespace_ok);
      container_name = optional container (wrap-eq-ok _ _ _ container_ok);
      args =
          rw
            (
              given_args (codes "logs" ∷ name ∷ []) container (codes "-c" ∷ container ∷ []),
              given_args _ namespace (codes "-n" ∷ namespace ∷ []),
              flag_args previous _ (codes "-p" ∷ []),
              flag_args rotated _ (codes "-r" ∷ []),
            )
            refl;
    })
