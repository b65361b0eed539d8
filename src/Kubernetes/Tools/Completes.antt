-- ===== src/Kubernetes/Tools/Completes.antt =====
-- Complete runs of the resource and log tools.
use ovn_kubernetes_mcp.Kubernetes.Tools.Formatted.{
  format_resource-InFormat, namespace_used-IsMeant, InFormat, IsMeant, namespace_used,
}
use ovn_kubernetes_mcp.Prelude.{
  ◌≢◌, ◌≡◌, refl, ap, ◌∙◌, false, List, [], ◌∷◌, none, is_empty, Result, ok, err,
}
use ovn_kubernetes_mcp.Text.{Text}
use ovn_kubernetes_mcp.Exec.{Context}
use ovn_kubernetes_mcp.Kubernetes.Api.{
  GroupVersionKind, ApiResource, Object, Request, Answer, server_resources, rest_mapping,
  get_object, leaf, send, Client, ◌>>=◌, attempt, run,
}
use ovn_kubernetes_mcp.Kubernetes.Client.{
  default_if, namespaced_kind, is_namespaced, namespace_of, gvk_text,
}
use ovn_kubernetes_mcp.Kubernetes.Client
use ovn_kubernetes_mcp.Kubernetes.Output.{validate_output_params}
use ovn_kubernetes_mcp.Kubernetes.Tools.{Formats, format_resource, get_resource_tool}

module _ {A B : Type 0} (answer : (r : Request) → Answer r) where
  run->>= :
      (m : Client A) (f : A → Client B) {a : A}
      → run answer m ≡ ok a
      → run answer (m >>= f) ≡ run answer (f a)
  unfolding run ◌>>=◌
  run->>= (leaf (ok b)) f e = ap (λ (r : Result A). run answer (leaf r >>= f)) e
  run->>= (leaf (err x)) f e = cc
  run->>= (send r k) f e = run->>= (k (answer r)) f e

is_set : (t : Text) → t ≢ [] → is_empty t ≡ false
is_set [] n = absurd (n refl)
is_set (c ∷ s) n = refl

module _ (answer : (r : Request) → Answer r) where
  run-namespace_of :
      (gvk : GroupVersionKind) (namespace : Text) (resources : List ApiResource)
      → answer (server_resources gvk.group gvk.version) ≡ ok resources
      → run answer (namespace_of gvk namespace) ≡ ok (namespace_used gvk namespace resources)
  unfolding namespace_of run ◌>>=◌ attempt
  run-namespace_of gvk [] resources e = rw (e, run) refl
  run-namespace_of gvk (c ∷ s) resources e = refl

  run-get_resource :
      (ctx : Context) (gvk : GroupVersionKind) (name namespace : Text)
      (resources : List ApiResource) (resource : Text) (o : Object)
      → answer (server_resources gvk.group gvk.version) ≡ ok resources
      → answer (rest_mapping gvk) ≡ ok resource
      → answer (get_object ctx resource (namespace_used gvk namespace resources) name) ≡ ok o
      → run answer (Client.get_resource ctx gvk name namespace) ≡ ok o
  unfolding Client.get_resource run ◌>>=◌
  run-get_resource ctx gvk name namespace resources resource o e f g =
      run->>= answer (namespace_of gvk namespace) _ (run-namespace_of gvk namespace resources e)
      ∙ rw (f, run) (rw (g, run) refl)

  get_resource_tool-run :
      (f : Formats) (ctx : Context) (gvk : GroupVersionKind) (name namespace output_type : Text)
      (resources : List ApiResource) (resource : Text) (o : Object)
      → is_empty gvk.version ≡ false
      → is_empty gvk.kind ≡ false
      → is_empty name ≡ false
      → validate_output_params f.parse output_type ≡ none
      → answer (server_resources gvk.group gvk.version) ≡ ok resources
      → answer (rest_mapping gvk) ≡ ok resource
      → answer (get_object ctx resource (namespace_used gvk namespace resources) name) ≡ ok o
      → run answer (get_resource_tool f ctx gvk name namespace output_type)
        ≡ format_resource f output_type o
  unfolding get_resource_tool run ◌>>=◌
  get_resource_tool-run f ctx gvk name namespace output_type resources resource o v k n valid e g
        h =
      rw v (
        rw k (
          rw n (
            rw valid (
              run->>= answer (Client.get_resource ctx gvk name namespace) _
                (run-get_resource ctx gvk name namespace resources resource o e g h)))))

  -- A complete run of `GetResource`, with a version, a kind, a name and an output type that passes the
  -- validation, when the API has the object. The object is read from the namespace that the request means:
  -- the one that it gives, otherwise `default` if the kind has namespaces and none if not. The result
  -- is the text of the JSON, of the YAML or of the JSONPath template after `jsonpath=`, if the output
  -- type is one of these, or the error of that library; it is the name, the namespace and the age for
  -- the empty output type, with labels and annotations for `wide`.
  pub get_resource_tool-completes :
      (f : Formats) (ctx : Context) (gvk : GroupVersionKind) (name namespace output_type : Text)
      (resources : List ApiResource) (used resource : Text) (o : Object)
      → gvk.version ≢ []
      → gvk.kind ≢ []
      → name ≢ []
      → validate_output_params f.parse output_type ≡ none
      → answer (server_resources gvk.group gvk.version) ≡ ok resources
      → IsMeant gvk.kind resources namespace used
      → answer (rest_mapping gvk) ≡ ok resource
      → answer (get_object ctx resource used name) ≡ ok o
      → InFormat f o output_type
          (run answer (get_resource_tool f ctx gvk name namespace output_type))
  get_resource_tool-completes f ctx gvk name namespace output_type resources used resource o v k n
        valid e meant g h =
      let same = namespace_used-IsMeant gvk namespace resources used meant in
      rw
        (get_resource_tool-run f ctx gvk name namespace output_type resources resource o
          (is_set gvk.version v) (is_set gvk.kind k) (is_set name n) valid e g
          (ap (λ (ns : Text). answer (get_object ctx resource ns name)) same ∙ h))
        (format_resource-InFormat f o output_type valid)
