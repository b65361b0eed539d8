-- ===== src/Tests/ServerTests.antt =====
-- The configured server on concrete requests, and a complete run of the tool for a resource.
use ovn_kubernetes_mcp.Kubernetes.Tools.Formatted.{first_kind, default_namespace, InFormat}
use ovn_kubernetes_mcp.Prelude.{
  ◌≡◌, ◌≢◌, ◌⊎◌, ◌*◌, refl, arith, true, false, List, [], ◌∷◌, map, Option, none, some, Selection,
  errorf, ok, err, Error,
}
use ovn_kubernetes_mcp.Prelude.Int.{pos, is_zero}
use ovn_kubernetes_mcp.Text.{Text, codes, split, trim_space, trim_prefix}
use ovn_kubernetes_mcp.Exec.{context_with_timeout}
use ovn_kubernetes_mcp.Utils.Timeout.{TimeoutParams, second}
use ovn_kubernetes_mcp.Middleware.Protocol.{
  Request, call_tool, Tool, list_tools, no_result, MethodHandler,
}
use ovn_kubernetes_mcp.Middleware.ToolFilter.{
  resolve_disabled, split_csv, disable_categories, find_category, disable_tools, call_tool_name,
}
use ovn_kubernetes_mcp.Middleware.ToolTimeout.{get_timeout_params}
use ovn_kubernetes_mcp.Server.{
  Flags, McpServerConfig, configured, parse_flags, to_tool_timeout, with_middleware,
}
use ovn_kubernetes_mcp.Server.Listing.{IsHidden, IsOffered, served_tools}
use ovn_kubernetes_mcp.Server.Calls.{served_call}
use ovn_kubernetes_mcp.Kubernetes.Api.{GroupVersionKind, ApiResource, Object, ObjectList, run}
use ovn_kubernetes_mcp.Kubernetes.Api
use ovn_kubernetes_mcp.Kubernetes.Output.{validate_output_params, cut_prefix}
use ovn_kubernetes_mcp.Kubernetes.Tools.{Formats, get_resource_tool}
use ovn_kubernetes_mcp.Kubernetes.Tools.Completes.{get_resource_tool-completes}
use ovn_kubernetes_mcp.Tests.Samples.{background}

abbrev flags : Flags
flags = record {
  show_version = false;
  mode = codes "dual";
  transport = codes "stdio";
  host = codes "localhost";
  port = codes "8080";
  kubeconfig = [];
  pwru_image = codes "pwru";
  tcpdump_image = codes "netshoot";
  kernel_image = codes "netshoot";
  timeout_seconds = pos 60;
  disabled_categories = codes "network-tools";
  disabled_tools = codes " get-nft,";
}

abbrev config : McpServerConfig
config = record {
  mode = codes "dual";
  transport = codes "stdio";
  host = codes "localhost";
  port = codes "8080";
  kubeconfig = [];
  pwru_image = codes "pwru";
  tcpdump_image = codes "netshoot";
  kernel_image = codes "netshoot";
  tool_timeout = pos (60 * second);
  disabled_tools = codes "tcpdump" ∷ codes "pwru" ∷ codes "get-nft" ∷ [];
}

parsed : parse_flags flags ≡ configured config
unfolding parse_flags to_tool_timeout resolve_disabled disable_categories split_csv split trim_space
    find_category disable_tools
parsed = refl

abbrev tools : List Tool
tools =
    record { name = codes "get-nft"; description = [] }
    ∷ record { name = codes "pod-logs"; description = [] }
    ∷ []

abbrev lists : MethodHandler
lists ctx method req = record { result = list_tools (map some tools); error = none }

abbrev no_timeout : Text → Option TimeoutParams
no_timeout arguments = none

served_tools_example :
    (visible : List (Option Tool)) × (with_middleware no_timeout 7 config lists background
        (codes "tools/list")
        none
      ≡ record { result = list_tools visible; error = none })
    × Selection (IsOffered flags) visible (map some tools)
served_tools_example =
    served_tools no_timeout 7 flags config lists background none tools parsed refl

abbrev call_logs : Request
call_logs = some (call_tool (some (record { name = codes "pod-logs"; arguments = [] })))

call_logs_named : call_tool_name call_logs ≢ []
call_logs_named e = cc

asks_nothing : is_zero (get_timeout_params no_timeout call_logs) ≡ true
unfolding get_timeout_params
asks_nothing = refl

served_call_example :
    (IsHidden flags (call_tool_name call_logs)
      × (with_middleware no_timeout 7 config lists background (codes "tools/call") call_logs
          ≡ record {
            result = no_result;
            error =
                some (errorf "tool %q is disabled by server configuration" (codes "pod-logs" ∷ []));
          }))
    ⊎ ((¬ IsHidden flags (call_tool_name call_logs))
        × (with_middleware no_timeout 7 config lists background (codes "tools/call") call_logs
            ≡ lists
                (context_with_timeout 7 background (pos (60 * second)))
                (codes "tools/call")
                call_logs))
served_call_example =
    served_call no_timeout 7 flags config lists background call_logs 60 parsed refl (omega arith)
      (omega arith) call_logs_named asks_nothing

abbrev formats : Formats
formats = record {
  parse = λ t. none;
  to_json = λ o. ok o.content;
  to_yaml = λ o. ok o.name;
  execute = λ t content. ok content;
  age = λ created. codes "1m0s";
}

abbrev pod_kind : GroupVersionKind
pod_kind = record { group = []; version = codes "v1"; kind = codes "Pod" }

abbrev web : Object
web = record {
  name = codes "web";
  namespace = codes "default";
  created = 0;
  labels = [];
  annotations = [];
  content = codes "{}";
}

abbrev pod_resources : List ApiResource
pod_resources = record { kind = codes "Pod"; namespaced = true } ∷ []

abbrev refused : Error
refused = errorf "refused" []

abbrev cluster : (r : Api.Request) → Api.Answer r
cluster (Api.get_logs ctx options) = err refused
cluster (Api.server_resources group version) = ok pod_resources
cluster (Api.rest_mapping gvk) = ok (codes "/v1, Resource=pods")
cluster (Api.get_object ctx resource namespace name) = ok web
cluster (Api.list_objects ctx resource namespace label_selector) = err refused
cluster (Api.create_pod ctx namespace pod) = err refused
cluster (Api.get_pod ctx namespace name) = err refused
cluster (Api.delete_pod ctx namespace name) = err refused
cluster (Api.exec_pod options) = err refused

valid_type : validate_output_params formats.parse (codes "jsonpath={.metadata.name}") ≡ none
unfolding validate_output_params cut_prefix trim_prefix
valid_type = refl

web_set : codes "web" ≢ []
web_set e = cc

version_set : pod_kind.version ≢ []
version_set e = cc

kind_set : pod_kind.kind ≢ []
kind_set e = cc

get_resource_tool-completes_example : InFormat formats web (codes "jsonpath={.metadata.name}") (
    run cluster (
      get_resource_tool formats background pod_kind
        (codes "web")
        []
        (codes "jsonpath={.metadata.name}")))
get_resource_tool-completes_example =
    get_resource_tool-completes cluster formats background pod_kind (codes "web") []
      (codes "jsonpath={.metadata.name}") pod_resources (codes "default")
      (codes "/v1, Resource=pods") web version_set kind_set web_set valid_type refl
      (default_namespace (first_kind (record { kind = codes "Pod"; namespaced = true }) [] refl))
      refl refl
