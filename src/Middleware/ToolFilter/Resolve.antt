-- ===== src/Middleware/ToolFilter/Resolve.antt =====
-- What `ResolveDisabled` accepts, and which tools it disables.
use ovn_kubernetes_mcp.Text.Laws.{elem_iff, text_eq_iff}
use ovn_kubernetes_mcp.Prelude.{
  Result-cases, refl, Any-append, ◌++◌, All, Option-cases, ◌⊎◌, ok, ◌↔◌, false, [], inr, arith, inl,
  Bool-cases, ◌≢◌, Any, ◌∷◌, some, ◌≡◌, List,
}
use ovn_kubernetes_mcp.Text.{elem, text_eq, Text}
use ovn_kubernetes_mcp.Middleware.ToolFilter.{
  split_csv, all_known_tools, disable_tools, resolve_disabled, disable_categories,
  tools_by_category, find_category,
}

-- The category is listed with the given tools, at its first place in the catalog.
pub data Listed (cat : Text) (tools : List Text) : List (Text × List Text) → Type 0 where
  here :
      {name : Text} {rest : List (Text × List Text)}
      → cat ≡ name
      → Listed cat tools ((name, tools) ∷ rest)
  later :
      {name : Text} {others : List Text} {rest : List (Text × List Text)}
      → cat ≢ name
      → Listed cat tools rest
      → Listed cat tools ((name, others) ∷ rest)

-- `t` is a tool of one of the categories.
abbrev pub InCategories : Text → List Text → Type 0
InCategories t cats =
    Any (λ cat. (tools : List Text) × Listed cat tools tools_by_category × Any (λ u. t ≡ u) tools)
      cats

find_category_sound :
    (cat : Text) (catalog : List (Text × List Text)) {tools : List Text}
    → find_category cat catalog ≡ some tools
    → Listed cat tools catalog
unfolding find_category
find_category_sound cat [] h = cc
find_category_sound cat ((name, ts) ∷ rest) {tools} h = elim (Bool-cases (text_eq cat name)) [
  | inl e ↦
      let same : ts ≡ tools = ground (arith, rw (e, find_category) at h) in
      rw same (here ((text_eq_iff cat name).0 e))
  | inr e ↦
      later (λ q. ground (arith, text_eq_iff cat name))
        (find_category_sound cat rest (rw (e, find_category) at h))
]

find_category_complete :
    (cat : Text) {tools : List Text} {catalog : List (Text × List Text)}
    → Listed cat tools catalog
    → find_category cat catalog ≡ some tools
unfolding find_category
find_category_complete cat (here {name} e) = rw ((text_eq_iff cat name).1 e)
find_category_complete cat (later {name} ne h) =
    let differs : text_eq cat name ≡ false = ground (arith, text_eq_iff cat name) in
    rw differs (find_category_complete cat h)

abbrev pub In : Text → List Text → Type 0
In t = Any (λ u. t ≡ u)

-- The tools of a category that is found are those that it is listed with.
found_tools :
    (t cat : Text) (tools : List Text)
    → find_category cat tools_by_category ≡ some tools
    → In t tools ↔ ((ts : List Text) × Listed cat ts tools_by_category × In t ts)
found_tools t cat tools e = (
  λ h. (tools, find_category_sound cat tools_by_category e, h),
  λ (ts, listed, h).
      let same : ts ≡ tools = ground (arith, e, find_category_complete cat listed) in rw same at h,
)

-- One item of a loop: its share joins what was there.
one_more : {D AT A T L C : Type 0} → D ↔ (AT ⊎ C) → AT ↔ (A ⊎ T) → T ↔ L → D ↔ (A ⊎ (L ⊎ C))
one_more (d, d') (m, m') (l, l') = (
  λ x. elim (d x) [
    | inl at ↦ elim (m at) [ inl a ↦ inl a | inr t ↦ inr (inl (l t)) ]
    | inr c ↦ inr (inr c)
  ],
  λ y. elim y [
    | inl a ↦ d' (inl (m' (inl a)))
    | inr z ↦ elim z [ inl b ↦ d' (inl (m' (inr (l' b)))) | inr c ↦ d' (inr c) ]
  ],
)

no_more : (t : Text) (acc d : List Text) → acc ≡ d → In t d ↔ (In t acc ⊎ ⊥)
no_more t acc d e = (λ h. inl (rw e h), λ h. elim h [ inl a ↦ rw (← e) a | inr z ↦ absurd z ])

disable_categories_iff :
    (t : Text) (cats acc d : List Text)
    → disable_categories tools_by_category cats acc ≡ ok d
    → In t d ↔ (In t acc ⊎ InCategories t cats)
unfolding disable_categories
disable_categories_iff t [] acc d h = no_more t acc d (ground arith)
disable_categories_iff t (cat ∷ cats) acc d h =
    elim (Option-cases (find_category cat tools_by_category)) [
      | inl e ↦ absurd (ground (arith, rw (e, disable_categories) at h))
      | inr (tools, e) ↦
          one_more
            (disable_categories_iff t cats (acc ++ tools) d (rw (e, disable_categories) at h))
            (Any-append (λ u. t ≡ u) acc tools) (found_tools t cat tools e)
    ]

disable_tools_iff :
    (t : Text) (known ts acc d : List Text)
    → disable_tools known ts acc ≡ ok d
    → In t d ↔ (In t acc ⊎ In t ts)
unfolding disable_tools
disable_tools_iff t known [] acc d h = no_more t acc d (ground arith)
disable_tools_iff t known (x ∷ ts) acc d h = elim (Bool-cases (elem x known)) [
  | inl e ↦
      one_more (disable_tools_iff t known ts (acc ++ x ∷ []) d (rw (e, disable_tools) at h))
        (Any-append (λ u. t ≡ u) acc (x ∷ []))
        (λ o. elim o [ inl q ↦ q | inr z ↦ absurd z ], λ q. inl q)
  | inr e ↦ absurd (ground (arith, rw (e, disable_tools) at h))
]

chained : {D A C T : Type 0} → A ↔ (⊥ ⊎ C) → D ↔ (A ⊎ T) → D ↔ (C ⊎ T)
chained (a, a') (d, d') = (
  λ x. elim (d x) [ inl y ↦ elim (a y) [ inl z ↦ absurd z | inr c ↦ inl c ] | inr t ↦ inr t ],
  λ y. elim y [ inl c ↦ d' (inl (a' (inr c))) | inr t ↦ d' (inr t) ],
)

-- If the two lists are accepted, a tool is disabled exactly if it belongs to a listed category or is
-- listed itself.
pub resolve_disabled_iff :
    (disabled_categories disabled_tools t : Text) (d : List Text)
    → resolve_disabled disabled_categories disabled_tools ≡ ok d
    → In t d ↔ (InCategories t (split_csv disabled_categories) ⊎ In t (split_csv disabled_tools))
unfolding resolve_disabled
resolve_disabled_iff cats tools t d h =
    elim (Result-cases (disable_categories tools_by_category (split_csv cats) [])) [
      | inl (acc, e) ↦ chained (disable_categories_iff t (split_csv cats) [] acc e) (
          disable_tools_iff t (all_known_tools tools_by_category) (split_csv tools) acc d
            (rw e at h))
      | inr (x, e) ↦ absurd (ground (arith, rw e at h))
    ]

-- A known category, and a known tool.
abbrev pub IsCategory : Text → Type 0
IsCategory cat = (tools : List Text) × Listed cat tools tools_by_category

abbrev pub IsTool : Text → Type 0
IsTool t = In t (all_known_tools tools_by_category)

disable_categories_accepts :
    (cats acc : List Text)
    → ((d : List Text) × (disable_categories tools_by_category cats acc ≡ ok d))
      ↔ All IsCategory cats
unfolding disable_categories
disable_categories_accepts [] acc = (λ _. tt, λ _. (acc, refl))
disable_categories_accepts (cat ∷ cats) acc =
    elim (Option-cases (find_category cat tools_by_category)) [
      | inl e ↦ (
        λ (d, h). absurd (ground (arith, rw (e, disable_categories) at h)),
        λ ((tools, listed), _). absurd (ground (arith, e, find_category_complete cat listed)),
      )
      | inr (tools, e) ↦
          let (to, from) = disable_categories_accepts cats (acc ++ tools) in
          (
            λ (d, h). (
              (tools, find_category_sound cat tools_by_category e),
              to (d, rw (e, disable_categories) at h),
            ),
            λ (_, k). let (d, h) = from k in (d, rw (e, disable_categories) h),
          )
    ]

disable_tools_accepts :
    (known ts acc : List Text)
    → ((d : List Text) × (disable_tools known ts acc ≡ ok d)) ↔ All (λ t. In t known) ts
unfolding disable_tools
disable_tools_accepts known [] acc = (λ _. tt, λ _. (acc, refl))
disable_tools_accepts known (x ∷ ts) acc = elim (Bool-cases (elem x known)) [
  | inl e ↦
      let (to, from) = disable_tools_accepts known ts (acc ++ x ∷ []) in
      (
        λ (d, h). ((elem_iff x known).0 e, to (d, rw (e, disable_tools) at h)),
        λ (_, k). let (d, h) = from k in (d, rw (e, disable_tools) h),
      )
  | inr e ↦ (
    λ (d, h). absurd (ground (arith, rw (e, disable_tools) at h)),
    λ (k, _). absurd (ground (arith, e, (elem_iff x known).1 k)),
  )
]

-- The two lists are accepted exactly if every entry of the first is a known category and every entry of
-- the second a known tool.
pub resolve_disabled_accepts :
    (disabled_categories disabled_tools : Text)
    → ((d : List Text) × (resolve_disabled disabled_categories disabled_tools ≡ ok d))
      ↔ (All IsCategory (split_csv disabled_categories) × All IsTool (split_csv disabled_tools))
unfolding resolve_disabled
resolve_disabled_accepts cats tools =
    let known = all_known_tools tools_by_category in
    let (to, from) = disable_categories_accepts (split_csv cats) [] in
    elim (Result-cases (disable_categories tools_by_category (split_csv cats) [])) [
      | inl (acc, e) ↦
          let (to', from') = disable_tools_accepts known (split_csv tools) acc in
          (
            λ (d, h). (to (acc, e), to' (d, rw e at h)),
            λ (_, k). let (d, h) = from' k in (d, rw e h),
          )
      | inr (x, e) ↦ (
        λ (d, h). absurd (ground (arith, rw e at h)),
        λ (k, _). let (d, h) = from k in absurd (ground (arith, e, h)),
      )
    ]
