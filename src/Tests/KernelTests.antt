-- ===== src/Tests/KernelTests.antt =====
-- Requests to the kernel tools and the network tools.
use ovn_kubernetes_mcp.Prelude.{[]}
use ovn_kubernetes_mcp.Prelude.Int.{pos}
use ovn_kubernetes_mcp.Text.{codes}
use ovn_kubernetes_mcp.Exec.Laws.{Ensures, Anything}
use ovn_kubernetes_mcp.Utils.Timeout.{with_timeout}
use ovn_kubernetes_mcp.Kernel.Params.{
  ListNftParams, ListIptablesParams, ListConntrackParams, ListIpParams,
}
use ovn_kubernetes_mcp.Kernel.Calls.{IsNodeCall}
use ovn_kubernetes_mcp.Kernel.Nft.{get_nft}
use ovn_kubernetes_mcp.Kernel.Nft.Allowed.{NftAllowed, get_nft-NftAllowed}
use ovn_kubernetes_mcp.Kernel.Iptables.{get_iptables}
use ovn_kubernetes_mcp.Kernel.Iptables.Allowed.{IptablesAllowed, get_iptables-IptablesAllowed}
use ovn_kubernetes_mcp.Kernel.Conntrack.{get_conntrack}
use ovn_kubernetes_mcp.Kernel.Conntrack.Allowed.{ConntrackAllowed, get_conntrack-ConntrackAllowed}
use ovn_kubernetes_mcp.Kernel.Ip.{get_ip_command_output}
use ovn_kubernetes_mcp.Kernel.Ip.Allowed.{IpAllowed, get_ip_command_output-IpAllowed}
use ovn_kubernetes_mcp.NetworkTools.Validate.{Config}
use ovn_kubernetes_mcp.NetworkTools.Tcpdump.{TcpdumpParams, tcpdump}
use ovn_kubernetes_mcp.NetworkTools.Tcpdump.Allowed.{TcpdumpCall, tcpdump-TcpdumpCall}
use ovn_kubernetes_mcp.NetworkTools.Pwru.{PwruParams, pwru}
use ovn_kubernetes_mcp.NetworkTools.Pwru.Allowed.{PwruCall, pwru-PwruCall}
use ovn_kubernetes_mcp.Tests.Samples.{
  background, thirty_seconds, kernel_config, on_worker, namespace,
}

abbrev list_sets : ListNftParams
list_sets = record {
  common = on_worker;
  command = codes " list sets";
  address_families = codes "inet";
}

abbrev list_nat : ListIptablesParams
list_nat = record {
  common = on_worker;
  table = codes "nat";
  command = codes "-L";
  filter_parameters = codes "-nv4";
}

abbrev list_tcp : ListConntrackParams
list_tcp = record { common = on_worker; command = codes "-L"; filter_parameters = codes "-p tcp" }

abbrev show_routes : ListIpParams
show_routes = record {
  common = on_worker;
  options = codes "-6";
  command = codes "route show";
  filter_parameters = codes "table all";
}

get_nft-NftAllowed_example :
    Ensures
      (IsNodeCall kernel_config
        (with_timeout 7 thirty_seconds background)
        list_sets.namespace
        list_sets.node
        NftAllowed)
      Anything
      (get_nft kernel_config 7 background list_sets)
get_nft-NftAllowed_example = get_nft-NftAllowed kernel_config 7 background list_sets

get_iptables-IptablesAllowed_example :
    Ensures
      (IsNodeCall kernel_config
        (with_timeout 7 thirty_seconds background)
        list_nat.namespace
        list_nat.node
        IptablesAllowed)
      Anything
      (get_iptables kernel_config 7 background list_nat)
get_iptables-IptablesAllowed_example =
    get_iptables-IptablesAllowed kernel_config 7 background list_nat

get_conntrack-ConntrackAllowed_example :
    Ensures
      (IsNodeCall kernel_config
        (with_timeout 7 thirty_seconds background)
        list_tcp.namespace
        list_tcp.node
        ConntrackAllowed)
      Anything
      (get_conntrack kernel_config 7 background list_tcp)
get_conntrack-ConntrackAllowed_example =
    get_conntrack-ConntrackAllowed kernel_config 7 background list_tcp

get_ip_command_output-IpAllowed_example :
    Ensures
      (IsNodeCall kernel_config
        (with_timeout 7 thirty_seconds background)
        show_routes.namespace
        show_routes.node
        IpAllowed)
      Anything
      (get_ip_command_output kernel_config 7 background show_routes)
get_ip_command_output-IpAllowed_example =
    get_ip_command_output-IpAllowed kernel_config 7 background show_routes

abbrev images : Config
images = record { pwru_image = codes "pwru"; tcpdump_image = codes "netshoot" }

abbrev capture : TcpdumpParams
capture = record {
  bpf_filter = codes "tcp port 443";
  target_type = codes "node";
  name = codes "worker-0";
  namespace = [];
  container_name = [];
  interface = codes "eth0";
  packet_count = pos 0;
  snaplen = pos 256;
  timeout = thirty_seconds;
}

tcpdump-TcpdumpCall_example :
    Ensures
      (TcpdumpCall images (with_timeout 7 thirty_seconds background) capture)
      Anything
      (tcpdump images 7 background capture)
tcpdump-TcpdumpCall_example = tcpdump-TcpdumpCall images 7 background capture

abbrev tracing : PwruParams
tracing = record {
  bpf_filter = codes "dst host 10.244.0.5";
  node_name = codes "worker-0";
  node_pod_namespace = namespace;
  output_limit_lines = pos 50;
  timeout = thirty_seconds;
}

pwru-PwruCall_example :
    Ensures
      (PwruCall images (with_timeout 7 thirty_seconds background) tracing)
      Anything
      (pwru images 7 background tracing)
pwru-PwruCall_example = pwru-PwruCall images 7 background tracing
