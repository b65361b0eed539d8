-- ===== src/NetworkTools/Pwru/Allowed.antt =====
-- The command that `Pwru` of pkg/network-tools/mcp/pwru.go runs.
use ovn_kubernetes_mcp.NetworkTools.Validate.Laws.{
  validate_packet_filter-IsPacketFilter, IsPacketFilter, bounded,
}
use ovn_kubernetes_mcp.Prelude.{ℕ, ◌≤◌, ◌≡◌, refl, List, [], ◌∷◌, arith}
use ovn_kubernetes_mcp.Prelude.Int.{ℤ, pos}
use ovn_kubernetes_mcp.Text.{Text, codes}
use ovn_kubernetes_mcp.Text.Decimal.{itoa}
use ovn_kubernetes_mcp.Exec.{Context, Call, debug_node}
use ovn_kubernetes_mcp.Exec.Laws.{
  Ensures, Anything, Ensures-lift, Ensures-issue, Satisfies-Anything,
}
use ovn_kubernetes_mcp.Utils.CommandBuilder.{when_given}
use ovn_kubernetes_mcp.Utils.Timeout.{with_timeout}
use ovn_kubernetes_mcp.NetworkTools.Validate.{Config}
use ovn_kubernetes_mcp.NetworkTools.Pwru.{PwruParams, pwru, pwru_args}

-- `pwru --output-limit-lines N [FILTER]` on the node that the request names, with the kernel's debug file
-- system mounted and nothing else.
pub data PwruCall (cfg : Config) (ctx : Context) (inp : PwruParams) : Call → Type 0 where
  traces :
      (lines : ℕ) {args : List Text}
      → (1 ≤ lines) × (lines ≤ 1000)
      → IsPacketFilter inp.bpf_filter
      → args
        ≡ codes "pwru"
          ∷ codes "--output-limit-lines"
          ∷ itoa (pos lines)
          ∷ when_given inp.bpf_filter (inp.bpf_filter ∷ [])
      → PwruCall cfg ctx inp (
          debug_node (record {
            ctx = ctx;
            namespace = inp.node_pod_namespace;
            node = inp.node_name;
            image = cfg.pwru_image;
            command = args;
            host_path = codes "/sys/kernel/debug";
            mount_path = codes "/sys/kernel/debug";
            timeout = 0;
          }))

pwru_args_lem :
    (lines : ℤ) (bpf_filter : Text)
    → pwru_args lines bpf_filter
      ≡ codes "pwru"
        ∷ codes "--output-limit-lines"
        ∷ itoa lines
        ∷ when_given bpf_filter (bpf_filter ∷ [])
unfolding pwru_args
pwru_args_lem lines [] = refl
pwru_args_lem lines (d ∷ t) = refl

-- Whatever the request and whatever the cluster answers, every command that `Pwru` runs is
-- `pwru --output-limit-lines N [FILTER]` with N from 1 to 1000 and a filter of at most 1024 bytes without
-- special characters, on the node that is asked for, under the request's timeout, with
-- /sys/kernel/debug as the only mount.
pub pwru-PwruCall :
    (cfg : Config) (now : ℕ) (parent : Context) (inp : PwruParams)
    → Ensures
        (PwruCall cfg (with_timeout now inp.timeout parent) inp)
        Anything
        (pwru cfg now parent inp)
unfolding pwru
pwru-PwruCall cfg now parent inp = Ensures-lift _ Anything _ _ λ _ lines_ok.
    Ensures-lift _ Anything _ _ λ _ filter_ok.
      let (n, en, n1, n2) = bounded inp.output_limit_lines 100 1000 _ _ (omega arith) lines_ok in
      Ensures-issue _ Anything _ _
        (traces n (n1, n2) (validate_packet_filter-IsPacketFilter inp.bpf_filter filter_ok)
          (rw (← en) (pwru_args_lem _ inp.bpf_filter)))
        λ r. Satisfies-Anything _
