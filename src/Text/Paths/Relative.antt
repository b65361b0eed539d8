-- ===== src/Text/Paths/Relative.antt =====
-- A relative path without `..` leads into every directory that it is joined to.
use ovn_kubernetes_mcp.Text.Paths.Below.{place-join, IsBelow}
use mathlib.Core.List.{reverse-reverse}
use ovn_kubernetes_mcp.Prelude.{
  ◌⊎◌, All-right, ℕ, ◌≡◌, ◌≢◌, refl, sym, ap, ◌∙◌, inl, inr, Bool, false, ◌||◌, List, [], ◌∷◌, ◌++◌,
  All, arith, reverse, append_assoc, append-nil, Bool-cases,
}
use ovn_kubernetes_mcp.Text.{Text, codes, text_eq, split, join, contains}
use ovn_kubernetes_mcp.Text.Laws.{text_eq_iff}
use ovn_kubernetes_mcp.Text.Occurs.{Occurs, contains_iff}
use ovn_kubernetes_mcp.Text.Paths.{
  slash, go_up, step_into, walk, rooted, render_path, clean, join_paths,
}
use ovn_kubernetes_mcp.Text.Paths.Laws.{place_lem, clean_lem, place, All-reverse}

go_up_stays :
    (u : List Text)
    → (v : List Text) × (go_up false (u ++ (codes ".." ∷ [])) ≡ v ++ (codes ".." ∷ []))
go_up_stays [] = (codes ".." ∷ [], refl)
go_up_stays (t ∷ u) = elim (Bool-cases (text_eq t (codes ".."))) [
  | inl e ↦ (codes ".." ∷ t ∷ u, rw e)
  | inr e ↦ (u, rw e)
]

up_step_stays :
    (u : List Text) (n : Text)
    → (v : List Text) × (step_into false (u ++ (codes ".." ∷ [])) n ≡ v ++ (codes ".." ∷ []))
unfolding step_into
up_step_stays u n = elim (Bool-cases (text_eq n [] || text_eq n (codes "."))) [
  | inl e ↦ (u, rw e)
  | inr e ↦ elim (Bool-cases (text_eq n (codes ".."))) [
    | inl p ↦ let (v, f) = go_up_stays u in (v, rw (e, p) f)
    | inr p ↦ (n ∷ u, rw (e, p))
  ]
]

-- An element `..` at the bottom of what is left of a relative path stays there.
up_stays :
    (u ns : List Text)
    → (v : List Text) × (walk false (u ++ (codes ".." ∷ [])) ns ≡ v ++ (codes ".." ∷ []))
unfolding walk
up_stays u [] = (u, refl)
up_stays u (n ∷ ns) =
    let (v, e) = up_step_stays u n in
    let (w, f) = up_stays v ns in (w, ap (λ (s : List Text). walk false s ns) e ∙ f)

up_once : step_into false [] (codes "..") ≡ codes ".." ∷ []
unfolding step_into
up_once = refl

up_down :
    (r : Bool) (st above : List Text)
    → (st ≡ []) ⊎ (go_up r (st ++ above) ≡ go_up false st ++ above)
up_down r [] above = inl refl
up_down r (t ∷ st) above = elim (Bool-cases (text_eq t (codes ".."))) [
  | inl e ↦ inr (rw e)
  | inr e ↦ inr (rw e)
]

-- One name, below any directory or below nothing, unless it leads up from nothing.
step_down :
    (r : Bool) (st above : List Text) (n : Text)
    → ((st ≡ []) × (n ≡ codes "..")) ⊎ (step_into r (st ++ above) n ≡ step_into false st n ++ above)
unfolding step_into
step_down r st above n = elim (Bool-cases (text_eq n [] || text_eq n (codes "."))) [
  | inl e ↦ inr (rw e)
  | inr e ↦ elim (Bool-cases (text_eq n (codes ".."))) [
    | inl p ↦ elim (up_down r st above) [
      | inl q ↦ inl (q, (text_eq_iff n (codes "..")).0 p)
      | inr q ↦ inr (rw (e, p) q)
    ]
    | inr p ↦ inr (rw (e, p))
  ]
]

leads_up : (ns : List Text) → All (λ n. n ≢ codes "..") (walk false (codes ".." ∷ []) ns) → ⊥
leads_up ns h =
    let (v, e) = up_stays [] ns in
    let last : All (λ n. n ≢ codes "..") (v ++ (codes ".." ∷ [])) = rw e at h in
    (All-right (λ n. n ≢ codes "..") v (codes ".." ∷ []) last).0 refl

-- Names none of which leads up are walked below any directory as they are walked from nothing.
walk_down :
    (r : Bool) (st above ns : List Text)
    → All (λ n. n ≢ codes "..") (walk false st ns)
    → walk r (st ++ above) ns ≡ walk false st ns ++ above
unfolding walk
walk_down r st above [] h = refl
walk_down r st above (n ∷ ns) h = elim (step_down r st above n) [
  | inl (e, f) ↦
      let up : step_into false st n ≡ codes ".." ∷ [] =
        ap (λ (s : List Text). step_into false s n) e ∙ ap (step_into false []) f ∙ up_once in
      absurd (leads_up ns (rw up at h))
  | inr e ↦ rw e (walk_down r (step_into false st n) above ns h)
]

-- A text that occurs in no part of a join.
Occurs-append : (p : Text) {sub s : Text} → Occurs sub s → Occurs sub (p ++ s)
Occurs-append p {sub} {s} o = record {
  before = p ++ o.before;
  behind = o.behind;
  whole = ap (λ (t : Text). p ++ t) o.whole ∙ sym (append_assoc p o.before (sub ++ o.behind));
}

Occurs-left : (sub t : Text) → Occurs sub (sub ++ t)
Occurs-left sub t = record { before = []; behind = t; whole = refl }

absent : (s sub : Text) → contains s sub ≡ false → ¬ Occurs sub s
absent s sub h o = ground (arith, (contains_iff s sub).1 o)

parts_differ : (ns : List Text) (sub : Text) → ¬ Occurs sub (join ns slash) → All (λ n. n ≢ sub) ns
unfolding join
parts_differ [] sub h = tt
parts_differ (n ∷ []) sub h =
    (λ e. h (rw e (record { before = []; behind = []; whole = sym (append-nil sub) })), tt)
parts_differ (n ∷ m ∷ ns) sub h = (
  λ e. h (rw e (Occurs-left sub (slash ∷ join (m ∷ ns) slash))),
  parts_differ (m ∷ ns) sub (λ o. h (Occurs-append n (Occurs-append (slash ∷ []) o))),
)

rendered_parts :
    (ns : List Text)
    → contains (render_path false ns) (codes "..") ≡ false
    → All (λ n. n ≢ codes "..") ns
rendered_parts [] h = tt
rendered_parts (n ∷ ns) h =
    parts_differ (n ∷ ns) (codes "..") (absent (join (n ∷ ns) slash) (codes "..") h)

place_parts :
    (path : Text)
    → rooted path ≡ false
    → contains (clean path) (codes "..") ≡ false
    → All (λ n. n ≢ codes "..") (walk false [] (split path slash))
place_parts path rel h =
    let shape : clean path ≡ render_path false (reverse (place path)) =
      clean_lem path ∙ ap (λ r. render_path r (reverse (place path))) rel in
    let walked : place path ≡ walk false [] (split path slash) =
      place_lem path ∙ ap (λ r. walk r [] (split path slash)) rel in
    let parts = rendered_parts (reverse (place path)) (rw shape at h) in
    let unfolded : All (λ n. n ≢ codes "..") (reverse (reverse (place path))) =
      All-reverse (λ (n : Text). n ≢ codes "..") (reverse (place path)) parts in
    rw (← walked) (rw (reverse-reverse (place path)) at unfolded)

-- What the guard on relative paths checks: the path is not absolute and holds no `..` when cleaned.
pub IsBelow-of_relative :
    (c : ℕ) (s path : Text)
    → rooted path ≡ false
    → contains (clean path) (codes "..") ≡ false
    → IsBelow (c ∷ s) (join_paths ((c ∷ s) ∷ path ∷ []))
IsBelow-of_relative c s path rel h = (
  walk false [] (split path slash),
  place-join c s path
      ∙ walk_down (rooted (c ∷ s)) [] (place (c ∷ s)) (split path slash) (place_parts path rel h),
)
