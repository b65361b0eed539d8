-- ===== src/Ovs/Flows/Allowed.antt =====
-- The commands that `Ofctl` and `Appctl` of pkg/ovs/mcp/mcp.go run, and what they return.
use ovn_kubernetes_mcp.Ovs.Validate.Laws.{
  validate_flow_spec-Admits, validate_bridge_name-IsBridge, given_params, IsBridge,
  IsConntrackParam,
}
use ovn_kubernetes_mcp.Prelude.{◌≡◌, ◌≢◌, refl, inl, inr, Bool-cases, List, [], ◌∷◌, All}
use ovn_kubernetes_mcp.Text.{Text, codes, text_eq, join}
use ovn_kubernetes_mcp.Text.Laws.{text_eq_iff}
use ovn_kubernetes_mcp.Exec.{Context}
use ovn_kubernetes_mcp.Exec.Laws.{Ensures, Ensures-lift, Ensures-bind}
use ovn_kubernetes_mcp.Utils.Lines.{newline}
use ovn_kubernetes_mcp.Utils.Pattern.{Regexp}
use ovn_kubernetes_mcp.Utils.Validate.{allow_brackets}
use ovn_kubernetes_mcp.Utils.Validate.Laws.{Admits}
use ovn_kubernetes_mcp.Pods.Laws.{IsPodCall, Ensures-pod_lines, IsListing, Ensures-listing}
use ovn_kubernetes_mcp.Ovs.Types.{
  OfctlParams, OfctlResult, AppctlParams, AppctlResult, ofctl_dump_flows, appctl_dump_conntrack,
  appctl_ofproto_trace,
}
use ovn_kubernetes_mcp.Ovs.Flows.{
  dump_flows, conntrack_args, dump_conntrack, dump_ofproto_trace, run_ofctl, ofctl, run_appctl,
  appctl,
}

-- `ovs-ofctl dump-flows` with a bridge.
pub data OfctlArgs (inp : OfctlParams) : List Text → Type 0 where
  dumps_flows :
      IsBridge inp.bridge → OfctlArgs inp (codes "ovs-ofctl" ∷ codes "dump-flows" ∷ inp.bridge ∷ [])

-- `ovs-appctl dpctl/dump-conntrack` with the additional parameters, or `ovs-appctl ofproto/trace` with
-- a bridge and a flow; whichever the action says.
pub data AppctlArgs (inp : AppctlParams) : List Text → Type 0 where
  dumps_conntrack :
      {args : List Text}
      → inp.action ≡ codes "dpctl/dump-conntrack"
      → All IsConntrackParam inp.additional_params
      → args ≡ codes "ovs-appctl" ∷ codes "dpctl/dump-conntrack" ∷ inp.additional_params
      → AppctlArgs inp args
  traces :
      inp.action ≡ codes "ofproto/trace"
      → IsBridge inp.bridge
      → (inp.flow ≢ []) × All (Admits allow_brackets) inp.flow
      → AppctlArgs inp (codes "ovs-appctl" ∷ codes "ofproto/trace" ∷ inp.bridge ∷ inp.flow ∷ [])

-- The bridge of the request, and a listing of the flows.
pub record IsOfctlResult (compile : Regexp) (inp : OfctlParams) (r : OfctlResult) : Type 0 where
  pub same_bridge : r.bridge ≡ inp.bridge
  pub listing : IsListing compile inp.pattern inp.head_tail r.flows

-- A listing of the entries, or one whose lines make the output.
pub data IsAppctlResult (compile : Regexp) (inp : AppctlParams) (r : AppctlResult) : Type 0 where
  entries_listed :
      inp.action ≡ codes "dpctl/dump-conntrack"
      → IsListing compile inp.pattern inp.head_tail r.entries
      → IsAppctlResult compile inp r
  output_listed :
      (lines : List Text)
      → inp.action ≡ codes "ofproto/trace"
      → IsListing compile inp.pattern inp.head_tail lines
      → r.output ≡ join lines newline
      → IsAppctlResult compile inp r

conntrack_args_lem :
    (params : List Text)
    → conntrack_args params ≡ codes "ovs-appctl" ∷ codes "dpctl/dump-conntrack" ∷ params
unfolding conntrack_args
conntrack_args_lem [] = refl
conntrack_args_lem (p ∷ ps) = refl

module _ (compile : Regexp) (ctx : Context) (inp : OfctlParams) where
  run_ofctl-Ensures :
      Ensures
        (IsPodCall ctx inp.namespace inp.name (OfctlArgs inp))
        (IsOfctlResult compile inp)
        (run_ofctl compile ctx inp)
  unfolding run_ofctl dump_flows
  run_ofctl-Ensures = elim (Bool-cases (text_eq inp.action ofctl_dump_flows)) [
    | inl e ↦ rw e (
        Ensures-bind _ _ _ (IsListing compile inp.pattern inp.head_tail) _
          (Ensures-lift _ _ _ _ λ _ bridge_ok.
            Ensures-listing compile inp.pattern inp.head_tail _ _ _ _ _
              (Ensures-pod_lines ctx inp.namespace inp.name (OfctlArgs inp) _ _ _ _
                (dumps_flows (validate_bridge_name-IsBridge inp.bridge bridge_ok)))
              λ lines l. l)
          λ flows l. record { same_bridge = refl; listing = l })
    | inr e ↦ rw e tt
  ]

  -- Whatever the request and whatever the cluster answers, the command that `Ofctl` runs is
  -- `ovs-ofctl dump-flows` with a bridge of letters, digits, hyphens and underscores, in the default
  -- container of the pod that is asked for. The flows that are returned are lines that are not blank and
  -- match the pattern where there is one, no more of them than head and tail allow.
  pub ofctl-Ensures :
      Ensures
        (IsPodCall ctx inp.namespace inp.name (OfctlArgs inp))
        (IsOfctlResult compile inp)
        (ofctl compile ctx inp)
  unfolding ofctl
  ofctl-Ensures = Ensures-lift _ _ _ _ λ _ _. run_ofctl-Ensures

module _ (compile : Regexp) (ctx : Context) (inp : AppctlParams) where
  dump_conntrack-Ensures :
      inp.action ≡ codes "dpctl/dump-conntrack"
      → Ensures
          (IsPodCall ctx inp.namespace inp.name (AppctlArgs inp))
          (IsListing compile inp.pattern inp.head_tail)
          (dump_conntrack compile ctx inp.namespace inp.name inp.additional_params inp.pattern
            inp.head_tail)
  unfolding dump_conntrack
  dump_conntrack-Ensures e = Ensures-lift _ _ _ _ λ _ params_ok.
      Ensures-listing compile inp.pattern inp.head_tail _ _ _ _ _
        (Ensures-pod_lines ctx inp.namespace inp.name (AppctlArgs inp) _ _ _ _ (
          dumps_conntrack e (given_params inp.additional_params params_ok)
            (conntrack_args_lem inp.additional_params)))
        λ lines l. l

  dump_ofproto_trace-Ensures :
      inp.action ≡ codes "ofproto/trace"
      → Ensures
          (IsPodCall ctx inp.namespace inp.name (AppctlArgs inp))
          (λ out.
            (lines : List Text) × IsListing compile inp.pattern inp.head_tail lines
            × (out ≡ join lines newline))
          (dump_ofproto_trace compile ctx inp.namespace inp.name inp.bridge inp.flow inp.pattern
            inp.head_tail)
  unfolding dump_ofproto_trace
  dump_ofproto_trace-Ensures e = Ensures-lift _ _ _ _ λ _ bridge_ok.
      Ensures-lift _ _ _ _ λ _ flow_ok.
        Ensures-listing compile inp.pattern inp.head_tail _ _ _ _ _
          (Ensures-pod_lines ctx inp.namespace inp.name (AppctlArgs inp) _ _ _ _ (
            traces e (validate_bridge_name-IsBridge inp.bridge bridge_ok)
              (validate_flow_spec-Admits inp.flow flow_ok)))
          λ lines l. (_, l, refl)

  run_appctl-Ensures :
      Ensures
        (IsPodCall ctx inp.namespace inp.name (AppctlArgs inp))
        (IsAppctlResult compile inp)
        (run_appctl compile ctx inp)
  unfolding run_appctl
  run_appctl-Ensures = elim (Bool-cases (text_eq inp.action appctl_dump_conntrack)) [
    | inl e ↦
        let action = (text_eq_iff inp.action appctl_dump_conntrack).0 e in
        rw e (
          Ensures-bind _ _ _ _ _ (dump_conntrack-Ensures action)
            λ entries l. entries_listed action l)
    | inr e ↦ elim (Bool-cases (text_eq inp.action appctl_ofproto_trace)) [
      | inl f ↦
          let action = (text_eq_iff inp.action appctl_ofproto_trace).0 f in
          rw (e, f)
            (Ensures-bind _ _ _ _ _ (dump_ofproto_trace-Ensures action)
              λ out (lines, l, text). output_listed lines action l text)
      | inr f ↦ rw (e, f) tt
    ]
  ]

  -- Whatever the request and whatever the cluster answers, the command that `Appctl` runs is the one of
  -- the requested action in the default container of the pod that is asked for:
  -- `ovs-appctl dpctl/dump-conntrack` with parameters that are a flag of one letter or a key and a value,
  -- or `ovs-appctl ofproto/trace` with a bridge of letters, digits, hyphens and underscores and a flow
  -- without shell metacharacters other than brackets. The lines that are returned are not blank and match
  -- the pattern where there is one, no more of them than head and tail allow.
  pub appctl-Ensures :
      Ensures
        (IsPodCall ctx inp.namespace inp.name (AppctlArgs inp))
        (IsAppctlResult compile inp)
        (appctl compile ctx inp)
  unfolding appctl
  appctl-Ensures = Ensures-lift _ _ _ _ λ _ _. run_appctl-Ensures
