-- ===== src/Ovs/Types.antt =====
-- pkg/ovs/types/command.go. An action is a string, as in the source: the constants name the strings
-- that a tool knows.
use ovn_kubernetes_mcp.Prelude.{List}
use ovn_kubernetes_mcp.Text.{Text, codes}
use ovn_kubernetes_mcp.Utils.HeadTail.{HeadTailParams}
use ovn_kubernetes_mcp.Utils.Pattern.{PatternParams}

abbrev pub vsctl_show : Text
vsctl_show = codes "show"

abbrev pub vsctl_list_br : Text
vsctl_list_br = codes "list-br"

abbrev pub vsctl_list_ports : Text
vsctl_list_ports = codes "list-ports"

abbrev pub vsctl_list_ifaces : Text
vsctl_list_ifaces = codes "list-ifaces"

abbrev pub ofctl_dump_flows : Text
ofctl_dump_flows = codes "dump-flows"

abbrev pub appctl_dump_conntrack : Text
appctl_dump_conntrack = codes "dpctl/dump-conntrack"

abbrev pub appctl_ofproto_trace : Text
appctl_ofproto_trace = codes "ofproto/trace"

pub record VsctlParams : Type 0 where
  pub namespace : Text
  pub name : Text
  pub action : Text
  pub bridge : Text
  pub head_tail : HeadTailParams

pub record VsctlResult : Type 0 where
  pub output : Text
  pub bridges : List Text
  pub ports : List Text
  pub interfaces : List Text

pub record OfctlParams : Type 0 where
  pub namespace : Text
  pub name : Text
  pub action : Text
  pub bridge : Text
  pub pattern : PatternParams
  pub head_tail : HeadTailParams

pub record OfctlResult : Type 0 where
  pub bridge : Text
  pub flows : List Text

pub record AppctlParams : Type 0 where
  pub namespace : Text
  pub name : Text
  pub action : Text
  pub bridge : Text
  pub flow : Text
  pub additional_params : List Text
  pub pattern : PatternParams
  pub head_tail : HeadTailParams

pub record AppctlResult : Type 0 where
  pub entries : List Text
  pub bridge : Text
  pub flow : Text
  pub output : Text
