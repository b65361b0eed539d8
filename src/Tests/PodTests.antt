-- ===== src/Tests/PodTests.antt =====
-- Requests to the OVS tools and the OVN tools.
use ovn_kubernetes_mcp.Prelude.{[], ◌∷◌}
use ovn_kubernetes_mcp.Text.{codes}
use ovn_kubernetes_mcp.Exec.Laws.{Ensures}
use ovn_kubernetes_mcp.Pods.Laws.{IsPodCall, IsListing}
use ovn_kubernetes_mcp.Ovs.Types.{VsctlParams, OfctlParams, AppctlParams}
use ovn_kubernetes_mcp.Ovs.Vsctl.{vsctl}
use ovn_kubernetes_mcp.Ovs.Vsctl.Allowed.{VsctlArgs, IsVsctlResult, vsctl-Ensures}
use ovn_kubernetes_mcp.Ovs.Flows.{ofctl, appctl}
use ovn_kubernetes_mcp.Ovs.Flows.Allowed.{
  OfctlArgs, IsOfctlResult, ofctl-Ensures, AppctlArgs, IsAppctlResult, appctl-Ensures,
}
use ovn_kubernetes_mcp.Ovn.Types.{ShowParams, GetParams, LogicalFlowListParams, OvnTraceParams}
use ovn_kubernetes_mcp.Ovn.Handlers.{get, list_logical_flows, trace}
use ovn_kubernetes_mcp.Ovn.Args.{GetArgs, LogicalFlowArgs, TraceArgs}
use ovn_kubernetes_mcp.Ovn.Allowed.{
  IsOutput, get-Ensures, list_logical_flows-Ensures, trace-Ensures,
}
use ovn_kubernetes_mcp.Tests.Samples.{background, ten_lines, literal, priority, namespace, pod}

abbrev ports_of_br_int : VsctlParams
ports_of_br_int = record {
  namespace = namespace;
  name = pod;
  action = codes "list-ports";
  bridge = codes "br-int";
  head_tail = ten_lines;
}

vsctl-Ensures_example :
    Ensures
      (IsPodCall background namespace pod (VsctlArgs ports_of_br_int))
      (IsVsctlResult ports_of_br_int)
      (vsctl background ports_of_br_int)
vsctl-Ensures_example = vsctl-Ensures background ports_of_br_int

abbrev flows_of_br_int : OfctlParams
flows_of_br_int = record {
  namespace = namespace;
  name = pod;
  action = codes "dump-flows";
  bridge = codes "br-int";
  pattern = priority;
  head_tail = ten_lines;
}

ofctl-Ensures_example :
    Ensures
      (IsPodCall background namespace pod (OfctlArgs flows_of_br_int))
      (IsOfctlResult literal flows_of_br_int)
      (ofctl literal background flows_of_br_int)
ofctl-Ensures_example = ofctl-Ensures literal background flows_of_br_int

abbrev zone_five : AppctlParams
zone_five = record {
  namespace = namespace;
  name = pod;
  action = codes "dpctl/dump-conntrack";
  bridge = [];
  flow = [];
  additional_params = codes "-m" ∷ codes "zone=5" ∷ [];
  pattern = priority;
  head_tail = ten_lines;
}

appctl-Ensures_example :
    Ensures
      (IsPodCall background namespace pod (AppctlArgs zone_five))
      (IsAppctlResult literal zone_five)
      (appctl literal background zone_five)
appctl-Ensures_example = appctl-Ensures literal background zone_five

abbrev show_south : ShowParams
show_south = record {
  namespace = namespace;
  name = pod;
  database = codes "sbdb";
  head_tail = ten_lines;
}

abbrev one_switch : GetParams
one_switch = record {
  namespace = namespace;
  name = pod;
  database = codes "nbdb";
  table = codes "Logical_Switch";
  record_name = codes "worker-0";
  columns = codes "name,ports";
  pattern = record { pattern = [] };
  head_tail = ten_lines;
}

get-Ensures_example :
    Ensures
      (IsPodCall background namespace pod (GetArgs one_switch))
      (λ r. IsOutput literal one_switch.pattern ten_lines r.output)
      (get literal background one_switch)
get-Ensures_example = get-Ensures literal background one_switch

abbrev flows_of_worker : LogicalFlowListParams
flows_of_worker = record {
  namespace = namespace;
  name = pod;
  datapath = codes "worker-0";
  pattern = priority;
  head_tail = ten_lines;
}

list_logical_flows-Ensures_example :
    Ensures
      (IsPodCall background namespace pod (LogicalFlowArgs flows_of_worker))
      (λ r. IsListing literal priority ten_lines r.flows)
      (list_logical_flows literal background flows_of_worker)
list_logical_flows-Ensures_example = list_logical_flows-Ensures literal background flows_of_worker

abbrev icmp_packet : OvnTraceParams
icmp_packet = record {
  namespace = namespace;
  name = pod;
  datapath = codes "worker-0";
  microflow = codes "icmp && ip4.src==10.244.0.5";
  mode = codes "summary";
  pattern = priority;
  head_tail = ten_lines;
}

trace-Ensures_example :
    Ensures
      (IsPodCall background namespace pod (TraceArgs icmp_packet))
      (λ r. IsOutput literal priority ten_lines r.output)
      (trace literal background icmp_packet)
trace-Ensures_example = trace-Ensures literal background icmp_packet
