-- ===== src/Ovs/Vsctl/Allowed.antt =====
-- The commands that `Vsctl` of pkg/ovs/mcp/mcp.go runs, and what it returns.
use ovn_kubernetes_mcp.Utils.HeadTail.Runs.{window-All}
use ovn_kubernetes_mcp.Ovs.Validate.Laws.{IsBridge, validate_bridge_name-IsBridge}
use ovn_kubernetes_mcp.Prelude.{
  ◌∙◌, ◌≡◌, refl, inl, inr, Bool-cases, List, [], ◌∷◌, All, arith, length,
}
use ovn_kubernetes_mcp.Text.{Text, codes, text_eq, join}
use ovn_kubernetes_mcp.Text.Laws.{text_eq_iff}
use ovn_kubernetes_mcp.Exec.{Context, Call}
use ovn_kubernetes_mcp.Exec.Laws.{Ensures, Ensures-lift, Ensures-bind}
use ovn_kubernetes_mcp.Utils.HeadTail.{HeadTailParams}
use ovn_kubernetes_mcp.Utils.HeadTail.Laws.{Within, apply-Within, apply-IsWindow}
use ovn_kubernetes_mcp.Utils.Lines.{newline}
use ovn_kubernetes_mcp.Pods.Laws.{IsLine, IsPodCall, Ensures-pod_lines}
use ovn_kubernetes_mcp.Ovs.Types.{
  VsctlParams, VsctlResult, vsctl_show, vsctl_list_br, vsctl_list_ports, vsctl_list_ifaces,
}
use ovn_kubernetes_mcp.Ovs.Vsctl.{list_bridges, show, list_ports, list_interfaces, run_vsctl, vsctl}

-- `ovs-vsctl show` or `list-br`, or `list-ports` or `list-ifaces` with a bridge; whichever the action
-- says.
pub data VsctlArgs (inp : VsctlParams) : List Text → Type 0 where
  shows : inp.action ≡ codes "show" → VsctlArgs inp (codes "ovs-vsctl" ∷ codes "show" ∷ [])
  lists_bridges :
      inp.action ≡ codes "list-br" → VsctlArgs inp (codes "ovs-vsctl" ∷ codes "list-br" ∷ [])
  lists_ports :
      inp.action ≡ codes "list-ports"
      → IsBridge inp.bridge
      → VsctlArgs inp (codes "ovs-vsctl" ∷ codes "list-ports" ∷ inp.bridge ∷ [])
  lists_ifaces :
      inp.action ≡ codes "list-ifaces"
      → IsBridge inp.bridge
      → VsctlArgs inp (codes "ovs-vsctl" ∷ codes "list-ifaces" ∷ inp.bridge ∷ [])

-- Lines that are not blank; those of the output of `show` are no more than head and tail allow.
pub record IsVsctlResult (inp : VsctlParams) (r : VsctlResult) : Type 0 where
  pub lines : List Text
  pub output_text : r.output ≡ join lines newline
  pub output_lines : All IsLine lines
  pub output_within : Within inp.head_tail 100 (length lines)
  pub bridges_lines : All IsLine r.bridges
  pub ports_lines : All IsLine r.ports
  pub interfaces_lines : All IsLine r.interfaces

nothing-Within : (h : HeadTailParams) → Within h 100 0
nothing-Within h = record {
  by_head = λ _. omega arith;
  by_tail = λ _. omega arith;
  by_default = λ _ _ _. omega arith;
}

join_nil : [] ≡ join [] newline
unfolding join
join_nil = refl

module _ (ctx : Context) (inp : VsctlParams) where
  abbrev VsctlCall : Call → Type 0
  VsctlCall = IsPodCall ctx inp.namespace inp.name (VsctlArgs inp)

  bridges-Ensures :
      inp.action ≡ codes "list-br"
      → Ensures VsctlCall (All IsLine) (list_bridges ctx inp.namespace inp.name)
  unfolding list_bridges
  bridges-Ensures e = Ensures-pod_lines ctx inp.namespace inp.name _ _ _ _ _ (lists_bridges e)

  ports-Ensures :
      inp.action ≡ codes "list-ports"
      → Ensures VsctlCall (All IsLine) (list_ports ctx inp.namespace inp.name inp.bridge)
  unfolding list_ports
  ports-Ensures e = Ensures-lift _ _ _ _ λ _ bridge_ok.
      Ensures-pod_lines ctx inp.namespace inp.name _ _ _ _ _
        (lists_ports e (validate_bridge_name-IsBridge inp.bridge bridge_ok))

  interfaces-Ensures :
      inp.action ≡ codes "list-ifaces"
      → Ensures VsctlCall (All IsLine) (list_interfaces ctx inp.namespace inp.name inp.bridge)
  unfolding list_interfaces
  interfaces-Ensures e = Ensures-lift _ _ _ _ λ _ bridge_ok.
      Ensures-pod_lines ctx inp.namespace inp.name _ _ _ _ _
        (lists_ifaces e (validate_bridge_name-IsBridge inp.bridge bridge_ok))

  -- A result without an output of `show`.
  only_lists :
      (r : VsctlResult)
      → r.output ≡ []
      → All IsLine r.bridges
      → All IsLine r.ports
      → All IsLine r.interfaces
      → IsVsctlResult inp r
  only_lists r e b p i = record {
    lines = [];
    output_text = e ∙ join_nil;
    output_lines = tt;
    output_within = nothing-Within inp.head_tail;
    bridges_lines = b;
    ports_lines = p;
    interfaces_lines = i;
  }

  run_vsctl-Ensures : Ensures VsctlCall (IsVsctlResult inp) (run_vsctl ctx inp)
  unfolding run_vsctl show
  run_vsctl-Ensures = elim (Bool-cases (text_eq inp.action vsctl_show)) [
    | inl e ↦ rw e (
        Ensures-bind _ _ _ _ _
          (Ensures-bind _
            (λ out.
              (lines : List Text) × (out ≡ join lines newline)
              × All IsLine lines
              × Within inp.head_tail 100 (length lines))
            _ (All IsLine) _
            (Ensures-pod_lines ctx inp.namespace inp.name (VsctlArgs inp) _ _ _ _
              (shows ((text_eq_iff inp.action vsctl_show).0 e)))
            λ lines a. (
              _,
              refl,
              window-All IsLine (apply-IsWindow inp.head_tail lines 100) a,
              apply-Within inp.head_tail lines 100,
            ))
          λ out (lines, text, a, w). record {
            lines = lines;
            output_text = text;
            output_lines = a;
            output_within = w;
            bridges_lines = tt;
            ports_lines = tt;
            interfaces_lines = tt;
          })
    | inr e ↦ elim (Bool-cases (text_eq inp.action vsctl_list_br)) [
      | inl f ↦
          rw (e, f)
            (Ensures-bind _ _ _ (All IsLine) _
              (bridges-Ensures ((text_eq_iff inp.action vsctl_list_br).0 f))
              λ lines a. only_lists _ refl a tt tt)
      | inr f ↦ elim (Bool-cases (text_eq inp.action vsctl_list_ports)) [
        | inl g ↦
            rw (e, f, g)
              (Ensures-bind _ _ _ (All IsLine) _
                (ports-Ensures ((text_eq_iff inp.action vsctl_list_ports).0 g))
                λ lines a. only_lists _ refl tt a tt)
        | inr g ↦ elim (Bool-cases (text_eq inp.action vsctl_list_ifaces)) [
          | inl k ↦
              rw (e, f, g, k)
                (Ensures-bind _ _ _ (All IsLine) _
                  (interfaces-Ensures ((text_eq_iff inp.action vsctl_list_ifaces).0 k))
                  λ lines a. only_lists _ refl tt tt a)
          | inr k ↦ rw (e, f, g, k) tt
        ]
      ]
    ]
  ]

  -- Whatever the request and whatever the cluster answers, the command that `Vsctl` runs is the one of
  -- the requested action, with a bridge of letters, digits, hyphens and underscores where the action
  -- needs one, in the default container of the pod that is asked for. The lists and the output that are
  -- returned consist of lines that are not blank, those of the output no more than head and tail allow.
  pub vsctl-Ensures : Ensures VsctlCall (IsVsctlResult inp) (vsctl ctx inp)
  unfolding vsctl
  vsctl-Ensures = Ensures-lift _ _ _ _ λ _ _. run_vsctl-Ensures
