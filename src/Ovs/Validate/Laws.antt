-- ===== src/Ovs/Validate/Laws.antt =====
-- What the validators of pkg/ovs/mcp/commands.go accept.
use mathlib.Core.List.{cons-ne-nil}
use ovn_kubernetes_mcp.Prelude.{
  reject_if, Error, Bool, not, if◌then◌else◌, ◌≡◌, ◌≢◌, refl, inl, inr, true, false, List, [], ◌∷◌,
  All, ok, arith, every_iff, is_empty, then-eq-ok,
}
use ovn_kubernetes_mcp.Text.{Text, codes}
use ovn_kubernetes_mcp.Utils.Validate.{default, allow_brackets}
use ovn_kubernetes_mcp.Utils.Validate.Laws.{
  validate_safe_string_iff, Admits, validate_safe_string-All,
}
use ovn_kubernetes_mcp.Ovs.Validate.{
  is_name_char, valid_conntrack_param, validate_bridge_name, validate_flow_spec,
  validate_conntrack_params,
}

-- Letters, digits, hyphens and underscores, and at least one.
abbrev pub IsBridge : Text → Type 0
IsBridge t = (t ≢ []) × All (λ c. is_name_char c ≡ true) t

pub validate_bridge_name-IsBridge :
    (t : Text) {u : Unit {0}} → validate_bridge_name t ≡ ok u → IsBridge t
unfolding validate_bridge_name
validate_bridge_name-IsBridge [] h = cc
validate_bridge_name-IsBridge (c ∷ s) h =
    (cons-ne-nil c s, (every_iff is_name_char (c ∷ s)).0 (ground arith))

-- A flag of one letter or a key and a value, without shell metacharacters.
abbrev pub IsConntrackParam : Text → Type 0
IsConntrackParam t = All (Admits default) t × (valid_conntrack_param t ≡ true)

accepted : (b : Bool) (e : Error) {u : Unit {0}} → reject_if (not b) e ≡ ok u → b ≡ true
accepted true e h = refl
accepted false e h = cc

validate_conntrack_params-All :
    (params : List Text) {u : Unit {0}}
    → validate_conntrack_params params ≡ ok u
    → All IsConntrackParam params
unfolding validate_conntrack_params
validate_conntrack_params-All [] h = tt
validate_conntrack_params-All (p ∷ ps) h =
    let (safe, more) = then-eq-ok _ _ h in
    let (shape, rest) = then-eq-ok _ _ more in
    (
      (
        validate_safe_string-All p (codes "conntrack parameter") false default safe,
        accepted _ _ shape,
      ),
      validate_conntrack_params-All ps rest,
    )

pub validate_flow_spec-Admits :
    (flow : Text) {u : Unit {0}}
    → validate_flow_spec flow ≡ ok u
    → (flow ≢ []) × All (Admits allow_brackets) flow
unfolding validate_flow_spec
validate_flow_spec-Admits flow h =
    elim ((validate_safe_string_iff flow (codes "flow specification") false allow_brackets).0 h) [
      | inl (e, f) ↦ cc
      | inr a ↦ a
    ]

pub given_params :
    (params : List Text) {u : Unit {0}}
    → (if not (is_empty params) then validate_conntrack_params params else ok tt) ≡ ok u
    → All IsConntrackParam params
given_params [] h = tt
given_params (p ∷ ps) h = validate_conntrack_params-All (p ∷ ps) h
