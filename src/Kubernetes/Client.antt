-- ===== src/Kubernetes/Client.antt =====
-- pkg/kubernetes/client/resources.go, and `GetPodLogs` of pods.go. The rendering of a group and version,
-- and of a kind with both, is the library's and stands in the errors unrendered.
use ovn_kubernetes_mcp.Prelude.{
  Bool, true, false, List, [], ◌∷◌, if◌then◌else◌, wrapf, Result, ok, err,
}
use ovn_kubernetes_mcp.Text.{Text, codes, text_eq, split}
use ovn_kubernetes_mcp.Exec.{Context}
use ovn_kubernetes_mcp.Utils.Lines.{newline}
use ovn_kubernetes_mcp.Kubernetes.Api.{
  attempt, GroupVersionKind, ApiResource, Object, ObjectList, get_logs, server_resources,
  rest_mapping, get_object, list_objects, leaf, send, Client, ◌>>=◌, wrapped,
}

-- The first resource of the kind decides.
abbrev pub namespaced_kind : Text → List ApiResource → Bool
namespaced_kind kind [] = false
namespaced_kind kind (r ∷ rs) =
    if text_eq r.kind kind then r.namespaced else namespaced_kind kind rs

unfoldable pub is_namespaced : GroupVersionKind → Client Bool
is_namespaced gvk = do
  resources ← send (server_resources gvk.group gvk.version) (
      wrapped "failed to fetch server resources for group version %s: %w"
        (gvk.group ∷ gvk.version ∷ []))
  leaf (ok (namespaced_kind gvk.kind resources))

abbrev pub gvk_text : GroupVersionKind → List Text
gvk_text gvk = gvk.group ∷ gvk.version ∷ gvk.kind ∷ []

abbrev pub default_if : Bool → Text
default_if true = codes "default"
default_if false = []

-- A namespace that is not set is `default` for a namespaced resource.
abbrev pub checked_namespace : List Text → Result Bool → Result Text
checked_namespace gvk (ok b) = ok (default_if b)
checked_namespace gvk (err e) = err (wrapf "failed to check if resource %s is namespaced: %w" gvk e)

unfoldable pub namespace_of : GroupVersionKind → Text → Client Text
unfolding is_namespaced
namespace_of gvk [] = do
  namespaced ← attempt (is_namespaced gvk)
  leaf (checked_namespace (gvk_text gvk) namespaced)
namespace_of gvk (c ∷ s) = leaf (ok (c ∷ s))

unfoldable pub get_resource : Context → GroupVersionKind → Text → Text → Client Object
get_resource ctx gvk name namespace = do
  used ← namespace_of gvk namespace
  resource ←
      send (rest_mapping gvk)
        (wrapped "failed to get REST mapping for resource %s: %w" (gvk_text gvk))
  send (get_object ctx resource used name) (
      wrapped "failed to fetch resource %s with name %s and namespace %s: %w"
        (resource ∷ name ∷ used ∷ []))

unfoldable pub list_resources : Context → GroupVersionKind → Text → Text → Client ObjectList
list_resources ctx gvk namespace label_selector = do
  resource ←
      send (rest_mapping gvk)
        (wrapped "failed to get REST mapping for resource %s: %w" (gvk_text gvk))
  send (list_objects ctx resource namespace label_selector) (
      wrapped "failed to list resources %s with namespace %s and label selector %s: %w"
        (resource ∷ namespace ∷ label_selector ∷ []))

abbrev pub split_logs : Result Text → Result (List Text)
split_logs (ok logs) = ok (split logs newline)
split_logs (err e) = err (wrapf "failed to fetch pod logs: %w" [] e)

unfoldable pub get_pod_logs : Context → Text → Text → Text → Bool → Client (List Text)
get_pod_logs ctx namespace name container previous =
    send
      (get_logs ctx (record {
        namespace = namespace;
        name = name;
        container = container;
        timestamps = true;
        previous = previous;
      }))
      (λ a. leaf (split_logs a))
