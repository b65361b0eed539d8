-- ===== src/Server/Listing.antt =====
-- What the configured server does to a list of tools.
use ovn_kubernetes_mcp.Exec.{Context}
use ovn_kubernetes_mcp.Utils.Timeout.{TimeoutParams}
use mathlib.Core.Path.{subst}
use ovn_kubernetes_mcp.Prelude.{
  false, true, Bool, refl, ◌∙◌, none, is_empty, if◌then◌else◌, ℕ, ◌≡◌, ap, inl, inr, ◌⊎◌, ◌↔◌,
  arith, List, [], ◌∷◌, map, Option, some, Selection, nothing, kept, dropped, Result-cases,
  Bool-cases,
}
use ovn_kubernetes_mcp.Text.{codes, Text}
use ovn_kubernetes_mcp.Middleware.Protocol.{list_tools, Request, MethodHandler, Tool}
use ovn_kubernetes_mcp.Middleware.ToolFilter.{tool_filter, split_csv, resolve_disabled}
use ovn_kubernetes_mcp.Middleware.ToolFilter.Resolve.{In, InCategories, resolve_disabled_iff}
use ovn_kubernetes_mcp.Middleware.ToolFilter.Hidden.{tools_list-Selection, IsEnabled}
use ovn_kubernetes_mcp.Middleware.ToolTimeout.{tool_timeout}
use ovn_kubernetes_mcp.Server.{
  is_positive, with_middleware, Flags, McpServerConfig, Start, configured, fatal, printed,
  parse_flags,
}

-- The operator hides the tool with this name, by one of the two flags.
abbrev pub IsHidden : Flags → Text → Type 0
IsHidden f name =
    InCategories name (split_csv f.disabled_categories) ⊎ In name (split_csv f.disabled_tools)

abbrev pub IsOffered : Flags → Option Tool → Type 0
IsOffered f o = (t : Tool) × (o ≡ some t) × ¬ IsHidden f t.name

Selection-iff :
    {A : Type 0} (P Q : A → Type 0) {ys xs : List A}
    → ((x : A) → P x ↔ Q x)
    → Selection P ys xs
    → Selection Q ys xs
Selection-iff P Q h nothing = nothing
Selection-iff P Q h (kept {x} p s) = kept ((h x).0 p) (Selection-iff P Q h s)
Selection-iff P Q h (dropped {x} n s) = dropped (λ q. n ((h x).1 q)) (Selection-iff P Q h s)

all_kept :
    (P : Option Tool → Type 0) (tools : List Tool)
    → ((t : Tool) → P (some t))
    → Selection P (map some tools) (map some tools)
all_kept P [] h = nothing
all_kept P (t ∷ ts) h = kept (h t) (all_kept P ts h)

disabled_of : Start → List Text
disabled_of (printed x) = []
disabled_of (fatal e) = []
disabled_of (configured cfg) = cfg.disabled_tools

-- The disabled tools of a configuration are those that the two flags name.
pub disabled_iff :
    (f : Flags) (cfg : McpServerConfig) (name : Text)
    → parse_flags f ≡ configured cfg
    → In name cfg.disabled_tools ↔ IsHidden f name
unfolding parse_flags disabled_of
disabled_iff f cfg name h = elim (Bool-cases f.show_version) [
  | inl e ↦ absurd (ground (arith, rw (e, parse_flags) at h))
  | inr e ↦ elim (Result-cases (resolve_disabled f.disabled_categories f.disabled_tools)) [
    | inl (d, r) ↦
        let same : d ≡ cfg.disabled_tools = ap disabled_of (rw (e, r, parse_flags) at h) in
        subst (λ (l : List Text). In name l ↔ IsHidden f name) same
          (resolve_disabled_iff f.disabled_categories f.disabled_tools name d r)
    | inr (x, r) ↦ absurd (ground (arith, rw (e, r, parse_flags) at h))
  ]
]

IsOffered-iff :
    (f : Flags) (cfg : McpServerConfig) (o : Option Tool)
    → parse_flags f ≡ configured cfg
    → IsEnabled cfg.disabled_tools o ↔ IsOffered f o
IsOffered-iff f cfg o h = (
  λ (t, e, n). (t, e, λ x. n ((disabled_iff f cfg t.name h).1 x)),
  λ (t, e, n). (t, e, λ x. n ((disabled_iff f cfg t.name h).0 x)),
)

-- A filter without names is no filter.
pub filtered :
    (d : List Text) (timed : MethodHandler) (ctx : Context) (method : Text) (req : Request)
    → (if is_empty d then timed else tool_filter d timed) ctx method req
      ≡ tool_filter d timed ctx method req
unfolding tool_filter
filtered [] timed ctx method req = refl
filtered (x ∷ d) timed ctx method req = refl

listed_tools :
    (d : List Text) (timed : MethodHandler) (ctx : Context) (req : Request) (tools : List Tool)
    → timed ctx (codes "tools/list") req
      ≡ record { result = list_tools (map some tools); error = none }
    → (visible : List (Option Tool)) × (tool_filter d timed ctx (codes "tools/list") req
        ≡ record { result = list_tools visible; error = none })
      × Selection (IsEnabled d) visible (map some tools)
unfolding tool_filter
listed_tools [] timed ctx req tools e =
    (map some tools, e, all_kept (IsEnabled []) tools (λ t. (t, refl, λ a. a)))
listed_tools (x ∷ d) timed ctx req tools e =
    tools_list-Selection (x ∷ d) timed ctx req (map some tools) (λ q. cc) e

module _ (unmarshal : Text → Option TimeoutParams) (now : ℕ) where
  timed_list :
      (b : Bool) (cfg : McpServerConfig) (next : MethodHandler) (ctx : Context) (req : Request)
      → (if b then tool_timeout unmarshal now cfg.tool_timeout next else next) ctx
          (codes "tools/list")
          req
        ≡ next ctx (codes "tools/list") req
  unfolding tool_timeout
  timed_list true cfg next ctx req = refl
  timed_list false cfg next ctx req = refl

  -- With a configuration made of the flags, what the handler of the SDK lists, without nil entries,
  -- reaches the client as exactly the tools that neither flag hides, in order, whatever the timeout.
  pub served_tools :
      (f : Flags) (cfg : McpServerConfig) (next : MethodHandler) (ctx : Context) (req : Request)
      (tools : List Tool)
      → parse_flags f ≡ configured cfg
      → next ctx (codes "tools/list") req
        ≡ record { result = list_tools (map some tools); error = none }
      → (visible : List (Option Tool)) × (with_middleware unmarshal now cfg next ctx
            (codes "tools/list")
            req
          ≡ record { result = list_tools visible; error = none })
        × Selection (IsOffered f) visible (map some tools)
  unfolding with_middleware
  served_tools f cfg next ctx req tools h e =
      let timed : MethodHandler =
        if is_positive cfg.tool_timeout
        then tool_timeout unmarshal now cfg.tool_timeout next
        else next in
      let (visible, same, s) =
        listed_tools cfg.disabled_tools timed ctx req tools
          (timed_list (is_positive cfg.tool_timeout) cfg next ctx req ∙ e) in
      (
        visible,
        filtered cfg.disabled_tools timed ctx (codes "tools/list") req ∙ same,
        Selection-iff (IsEnabled cfg.disabled_tools) (IsOffered f) (λ o. IsOffered-iff f cfg o h) s,
      )
