-- ===== src/Middleware/ToolFilter/Hidden.antt =====
-- What `ToolFilter` hides, and what it refuses.
use mathlib.Core.Path.{subst}
use ovn_kubernetes_mcp.Text.Laws.{elem_iff}
use ovn_kubernetes_mcp.Exec.{Context}
use ovn_kubernetes_mcp.Prelude.{
  ap, nonempty-is_empty, false, inl, refl, Selection-keep, is_empty, Bool-cases, keep, Selection,
  not, arith, inr, none, ◌↔◌, ◌⊎◌, Bool, ◌∷◌, errorf, true, [], some, ◌≢◌, Any, Option, ◌≡◌, List,
}
use ovn_kubernetes_mcp.Text.{Text, codes, elem}
use ovn_kubernetes_mcp.Middleware.Protocol.{no_result, Tool, MethodHandler, Request, list_tools}
use ovn_kubernetes_mcp.Middleware.ToolFilter.{
  call_tool_name, is_visible, filter_result, tool_filter,
}

-- A tool that is not nil and whose name is not disabled.
abbrev pub IsEnabled : List Text → Option Tool → Type 0
IsEnabled disabled o = (t : Tool) × (o ≡ some t) × ¬ Any (λ d. t.name ≡ d) disabled

not_iff : {b : Bool} {P : Type 0} → (b ≡ true) ↔ P → (not b ≡ true) ↔ ¬ P
not_iff {b} h = elim (Bool-cases b) [
  | inl e ↦ (λ n. absurd (ground arith), λ n. absurd (n (h.0 e)))
  | inr e ↦ (λ n p. ground (arith, h.1 p), λ n. ground arith)
]

abbrev name_of : Option Tool → Text
name_of none = []
name_of (some t) = t.name

some-name : (t u : Tool) → ◌≡◌ {A = Option Tool} (some t) (some u) → t.name ≡ u.name
some-name t u e = ap (λ (o : Option Tool). name_of o) e

is_visible_iff :
    (disabled : List Text) (o : Option Tool) → (is_visible disabled o ≡ true) ↔ IsEnabled disabled o
is_visible_iff disabled none = (λ h. absurd (ground arith), λ (t, e, _). absurd (ground arith))
is_visible_iff disabled (some t) =
    let (to, from) = not_iff (elem_iff t.name disabled) in
    (
      λ h. (t, refl, to h),
      λ (u, e, n).
          from (λ a. n (subst (λ (m : Text). Any (λ d. m ≡ d) disabled) (some-name t u e) a)),
    )

-- What the handler behind the filter lists successfully reaches the client as exactly its enabled tools,
-- in order.
pub tools_list-Selection :
    (disabled : List Text) (next : MethodHandler) (ctx : Context) (req : Request)
    (tools : List (Option Tool))
    → disabled ≢ []
    → next ctx (codes "tools/list") req ≡ record { result = list_tools tools; error = none }
    → (visible : List (Option Tool)) × (tool_filter disabled next ctx (codes "tools/list") req
        ≡ record { result = list_tools visible; error = none })
      × Selection (IsEnabled disabled) visible tools
unfolding tool_filter filter_result
tools_list-Selection [] next ctx req tools h e = absurd (h refl)
tools_list-Selection (d ∷ ds) next ctx req tools h e = (
  keep (is_visible (d ∷ ds)) tools,
  rw e,
  Selection-keep (IsEnabled (d ∷ ds)) (is_visible (d ∷ ds)) tools (is_visible_iff (d ∷ ds)),
)

-- A call of a disabled tool is refused, whatever handler stands behind the filter; a call of any other
-- tool is handed on as it is.
pub tools_call_refused :
    (disabled : List Text) (next : MethodHandler) (ctx : Context) (req : Request)
    → call_tool_name req ≢ []
    → (Any (λ d. call_tool_name req ≡ d) disabled
        × (tool_filter disabled next ctx (codes "tools/call") req ≡ record {
          result = no_result;
          error =
              some (errorf "tool %q is disabled by server configuration" (call_tool_name req ∷ []));
        }))
      ⊎ ((¬ Any (λ d. call_tool_name req ≡ d) disabled)
          × (tool_filter disabled next ctx (codes "tools/call") req
              ≡ next ctx (codes "tools/call") req))
unfolding tool_filter
tools_call_refused [] next ctx req h = inr (λ a. a, refl)
tools_call_refused (d ∷ ds) next ctx req h =
    let named : is_empty (call_tool_name req) ≡ false = nonempty-is_empty _ h in
    elim (Bool-cases (elem (call_tool_name req) (d ∷ ds))) [
      | inl e ↦ inl ((elem_iff (call_tool_name req) (d ∷ ds)).0 e, rw (named, e))
      | inr e ↦
          inr (λ a. ground (arith, (elem_iff (call_tool_name req) (d ∷ ds)).1 a), rw (named, e))
    ]
