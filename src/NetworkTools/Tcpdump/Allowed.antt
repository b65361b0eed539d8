-- ===== src/NetworkTools/Tcpdump/Allowed.antt =====
-- The command that `Tcpdump` of pkg/network-tools/mcp/tcpdump.go runs.
use ovn_kubernetes_mcp.NetworkTools.Validate.Laws.{
  validate_packet_filter-IsPacketFilter, validate_interface-IsInterface, IsPacketFilter, bounded,
  IsInterface,
}
use ovn_kubernetes_mcp.Prelude.{ℕ, ◌≤◌, ◌≡◌, refl, inl, inr, List, [], ◌∷◌, ◌++◌, arith, Bool-cases}
use ovn_kubernetes_mcp.Prelude.Int.{ℤ, pos}
use ovn_kubernetes_mcp.Text.{Text, codes, text_eq}
use ovn_kubernetes_mcp.Text.Laws.{text_eq_iff}
use ovn_kubernetes_mcp.Text.Decimal.{itoa}
use ovn_kubernetes_mcp.Exec.{Context, Call, debug_node, pod_exec}
use ovn_kubernetes_mcp.Exec.Laws.{
  Ensures, Anything, Ensures-lift, Ensures-issue, Satisfies-Anything,
}
use ovn_kubernetes_mcp.Utils.CommandBuilder.{when_given}
use ovn_kubernetes_mcp.Utils.Timeout.{with_timeout}
use ovn_kubernetes_mcp.NetworkTools.Validate.{Config}
use ovn_kubernetes_mcp.NetworkTools.Tcpdump.{TcpdumpParams, tcpdump, tcpdump_args, run_tcpdump}

-- `tcpdump -n -v -s S -c C [-i INTERFACE] [FILTER]`, with bounds on both numbers.
pub data TcpdumpArgs (args : List Text) : Type 0 where
  captures :
      (snaplen packet_count : ℕ) (interface bpf_filter : Text)
      → (1 ≤ snaplen) × (snaplen ≤ 1500)
      → (1 ≤ packet_count) × (packet_count ≤ 1000)
      → IsInterface interface
      → IsPacketFilter bpf_filter
      → args
        ≡ codes "tcpdump"
          ∷ codes "-n"
          ∷ codes "-v"
          ∷ codes "-s"
          ∷ itoa (pos snaplen)
          ∷ codes "-c"
          ∷ itoa (pos packet_count)
          ∷ (when_given interface (codes "-i" ∷ interface ∷ [])
              ++ when_given bpf_filter (bpf_filter ∷ []))
      → TcpdumpArgs args

-- On the node or in the pod that the request names, and with no mount.
pub data TcpdumpCall (cfg : Config) (ctx : Context) (inp : TcpdumpParams) : Call → Type 0 where
  on_a_node :
      {args : List Text}
      → inp.target_type ≡ codes "node"
      → TcpdumpArgs args
      → TcpdumpCall cfg ctx inp (
          debug_node (record {
            ctx = ctx;
            namespace = inp.namespace;
            node = inp.name;
            image = cfg.tcpdump_image;
            command = args;
            host_path = [];
            mount_path = [];
            timeout = 0;
          }))
  in_a_pod :
      {args : List Text}
      → inp.target_type ≡ codes "pod"
      → TcpdumpArgs args
      → TcpdumpCall cfg ctx inp (
          pod_exec (record {
            ctx = ctx;
            namespace = inp.namespace;
            name = inp.name;
            container = inp.container_name;
            command = args;
          }))

tcpdump_args_lem :
    (snaplen packet_count : ℤ) (interface bpf_filter : Text)
    → tcpdump_args snaplen packet_count interface bpf_filter
      ≡ codes "tcpdump"
        ∷ codes "-n"
        ∷ codes "-v"
        ∷ codes "-s"
        ∷ itoa snaplen
        ∷ codes "-c"
        ∷ itoa packet_count
        ∷ (when_given interface (codes "-i" ∷ interface ∷ [])
            ++ when_given bpf_filter (bpf_filter ∷ []))
unfolding tcpdump_args
tcpdump_args_lem snaplen packet_count [] [] = refl
tcpdump_args_lem snaplen packet_count [] (d ∷ t) = refl
tcpdump_args_lem snaplen packet_count (c ∷ s) [] = refl
tcpdump_args_lem snaplen packet_count (c ∷ s) (d ∷ t) = refl

run_tcpdump-TcpdumpCall :
    (cfg : Config) (ctx : Context) (inp : TcpdumpParams) (args : List Text)
    → TcpdumpArgs args
    → Ensures (TcpdumpCall cfg ctx inp) Anything (run_tcpdump cfg ctx inp args)
unfolding run_tcpdump
run_tcpdump-TcpdumpCall cfg ctx inp args h =
    elim (Bool-cases (text_eq inp.target_type (codes "node"))) [
      | inl e ↦ rw e (
          Ensures-issue _ Anything _ _
            (on_a_node ((text_eq_iff inp.target_type (codes "node")).0 e) h)
            λ r. Satisfies-Anything _)
      | inr e ↦ elim (Bool-cases (text_eq inp.target_type (codes "pod"))) [
        | inl p ↦
            rw (e, p)
              (Ensures-issue _ Anything _ _
                (in_a_pod ((text_eq_iff inp.target_type (codes "pod")).0 p) h)
                λ r. Satisfies-Anything _)
        | inr p ↦ rw (e, p) tt
      ]
    ]

-- Whatever the request and whatever the cluster answers, every command that `Tcpdump` runs is
-- `tcpdump -n -v -s S -c C [-i INTERFACE] [FILTER]` with S from 1 to 1500 and C from 1 to 1000, an
-- interface that is `any` or a name of at most 15 bytes in the pattern of the names, and a filter of at
-- most 1024 bytes without special characters. It runs on the node or in the pod and container that are
-- asked for, under the request's timeout.
pub tcpdump-TcpdumpCall :
    (cfg : Config) (now : ℕ) (parent : Context) (inp : TcpdumpParams)
    → Ensures
        (TcpdumpCall cfg (with_timeout now inp.timeout parent) inp)
        Anything
        (tcpdump cfg now parent inp)
unfolding tcpdump
tcpdump-TcpdumpCall cfg now parent inp = Ensures-lift _ Anything _ _ λ _ _.
    Ensures-lift _ Anything _ _ λ _ interface_ok. Ensures-lift _ Anything _ _ λ _ filter_ok.
      Ensures-lift _ Anything _ _ λ _ count_ok. Ensures-lift _ Anything _ _ λ _ snaplen_ok.
        let (c, ec, c1, c2) = bounded inp.packet_count 100 1000 _ _ (omega arith) count_ok in
        let (n, en, n1, n2) = bounded inp.snaplen 96 1500 _ _ (omega arith) snaplen_ok in
        run_tcpdump-TcpdumpCall cfg _ inp _ (
          captures n c inp.interface inp.bpf_filter (n1, n2) (c1, c2)
            (validate_interface-IsInterface inp.interface interface_ok)
            (validate_packet_filter-IsPacketFilter inp.bpf_filter filter_ok)
            (rw (← en, ← ec) (tcpdump_args_lem _ _ inp.interface inp.bpf_filter)))
