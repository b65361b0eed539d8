-- ===== src/Text/Paths/Laws.antt =====
-- Where a path leads: the names from the innermost out that are left of it, and the laws by which
-- cleaning and joining keep that.
use mathlib.Core.List.{reverse-cons}
use ovn_kubernetes_mcp.Prelude.{
  All-append, ◌≡◌, ◌≢◌, refl, ap, ◌∙◌, inl, inr, Bool, true, false, ◌||◌, List, [], ◌∷◌, ◌++◌, All,
  arith, reverse, Bool-cases,
}
use ovn_kubernetes_mcp.Text.{Text, codes, text_eq, split, split_by, join}
use ovn_kubernetes_mcp.Text.Laws.{text_eq_iff}
use ovn_kubernetes_mcp.Text.Joins.{Lacks, split-join, split-Lacks}
use ovn_kubernetes_mcp.Text.Paths.{slash, go_up, step_into, walk, rooted, render_path, clean}

-- The names that a path goes through, the innermost first.
unfoldable pub place : Text → List Text
place path = walk (rooted path) [] (split path slash)

pub walk-append :
    (r : Bool) (above ns ms : List Text) → walk r above (ns ++ ms) ≡ walk r (walk r above ns) ms
unfolding walk
walk-append r above [] ms = refl
walk-append r above (n ∷ ns) ms = walk-append r (step_into r above n) ns ms

-- Names that none of which undoes another.
abbrev pub IsNormal : Bool → List Text → Type 0
IsNormal r [] = Unit
IsNormal r (n ∷ above) =
    (step_into r above n ≡ n ∷ above) × (n ≢ []) × Lacks slash n × IsNormal r above

plain_step :
    (r : Bool) (above : List Text) (n : Text)
    → text_eq n [] || text_eq n (codes ".") ≡ false
    → text_eq n (codes "..") ≡ false
    → step_into r above n ≡ n ∷ above
unfolding step_into
plain_step r above n h k = rw (h, k)

up_step : (r : Bool) (above : List Text) → step_into r above (codes "..") ≡ go_up r above
unfolding step_into
up_step r above = refl

go_up-IsNormal : (r : Bool) (above : List Text) → IsNormal r above → IsNormal r (go_up r above)
go_up-IsNormal true [] h = tt
go_up-IsNormal false [] h = (up_step false [], (λ e. cc), (refl, (refl, tt)), tt)
go_up-IsNormal r (top ∷ above) h = elim (Bool-cases (text_eq top (codes ".."))) [
  | inl e ↦ rw e (up_step r (top ∷ above) ∙ rw e, (λ q. cc), (refl, (refl, tt)), h)
  | inr e ↦ rw e h.3
]

step_into-IsNormal :
    (r : Bool) (above : List Text) (n : Text)
    → Lacks slash n
    → IsNormal r above
    → IsNormal r (step_into r above n)
step_into-IsNormal r above n l h = elim (Bool-cases (text_eq n [] || text_eq n (codes "."))) [
  | inl e ↦ unfold step_into in rw e h
  | inr e ↦ elim (Bool-cases (text_eq n (codes ".."))) [
    | inl u ↦ unfold step_into in rw (e, u) (go_up-IsNormal r above h)
    | inr u ↦
        let fits = plain_step r above n e u in
        rw fits (fits, (λ q. ground (arith, text_eq_iff n [])), l, h)
  ]
]

pub walk-IsNormal :
    (r : Bool) (above ns : List Text)
    → All (Lacks slash) ns
    → IsNormal r above
    → IsNormal r (walk r above ns)
unfolding walk
walk-IsNormal r above [] l h = h
walk-IsNormal r above (n ∷ ns) (ln, l) h =
    walk-IsNormal r (step_into r above n) ns l (step_into-IsNormal r above n ln h)

pub place-IsNormal : (path : Text) → IsNormal (rooted path) (place path)
unfolding place
place-IsNormal path = walk-IsNormal (rooted path) [] (split path slash) (split-Lacks path slash) tt

-- Walking normal names from the outermost in gives them back.
pub walk_normal : (r : Bool) (st : List Text) → IsNormal r st → walk r [] (reverse st) ≡ st
walk_normal r [] h = unfold walk in refl
walk_normal r (n ∷ above) h =
    ap (walk r []) (reverse-cons n above)
    ∙ walk-append r [] (reverse above) (n ∷ [])
    ∙ ap (λ (s : List Text). walk r s (n ∷ [])) (walk_normal r above h.3)
    ∙ unfold walk in h.0

IsNormal-Lacks : (r : Bool) (st : List Text) → IsNormal r st → All (Lacks slash) st
IsNormal-Lacks r [] h = tt
IsNormal-Lacks r (n ∷ above) h = (h.2, IsNormal-Lacks r above h.3)

IsNormal-nonempty : (r : Bool) (st : List Text) → IsNormal r st → All (λ n. n ≢ []) st
IsNormal-nonempty r [] h = tt
IsNormal-nonempty r (n ∷ above) h = (h.1, IsNormal-nonempty r above h.3)

pub All-reverse {ℓ κ} : {A : Type ℓ} (P : A → Type κ) (xs : List A) → All P xs → All P (reverse xs)
All-reverse P [] h = tt
All-reverse P (x ∷ xs) (p, h) =
    rw (reverse-cons x xs) (All-append P (reverse xs) (x ∷ []) (All-reverse P xs h) (p, tt))

-- The parts of a cleaned path with a root.
pub split_rooted :
    (n : Text) (ns : List Text)
    → All (Lacks slash) (n ∷ ns)
    → split (render_path true (n ∷ ns)) slash ≡ [] ∷ n ∷ ns
split_rooted n ns h =
    let unfolded : render_path true (n ∷ ns) ≡ join ([] ∷ n ∷ ns) slash = unfold join in refl in
    rw unfolded (split-join [] (n ∷ ns) slash (tt, h))

walk_blank : (r : Bool) (ns : List Text) → walk r [] ([] ∷ ns) ≡ walk r [] ns
unfolding walk step_into
walk_blank r ns = refl

render_rooted :
    (r : Bool) (ns : List Text)
    → All (λ n. n ≢ []) ns
    → All (Lacks slash) ns
    → rooted (render_path r ns) ≡ r
render_rooted true ns h l = refl
render_rooted false [] h l = refl
render_rooted false ([] ∷ ns) (h, _) l = absurd (h refl)
render_rooted false ((c ∷ n) ∷ []) h ((l, _), _) = unfold join in rw l
render_rooted false ((c ∷ n) ∷ m ∷ ns) h ((l, _), _) = unfold join in rw l

walk_render :
    (r : Bool) (ns : List Text)
    → All (Lacks slash) ns
    → walk r [] (split (render_path r ns) slash) ≡ walk r [] ns
walk_render true [] l = unfold walk split split_by step_into join in refl
walk_render true (n ∷ ns) l = rw (split_rooted n ns l) (walk_blank true (n ∷ ns))
walk_render false [] l = unfold walk split split_by step_into join in refl
walk_render false (n ∷ ns) l = rw (split-join n ns slash l)

pub place_names :
    (path : Text)
    → All (λ n. n ≢ []) (reverse (place path)) × All (Lacks slash) (reverse (place path))
place_names path =
    let normal = place-IsNormal path in
    (
      All-reverse (λ (n : Text). n ≢ []) (place path) (IsNormal-nonempty _ _ normal),
      All-reverse (Lacks slash) (place path) (IsNormal-Lacks _ _ normal),
    )

pub clean_lem : (path : Text) → clean path ≡ render_path (rooted path) (reverse (place path))
unfolding clean place
clean_lem path = refl

pub rooted-clean : (path : Text) → rooted (clean path) ≡ rooted path
rooted-clean path =
    let (full, lacks) = place_names path in
    rw (clean_lem path) (render_rooted (rooted path) (reverse (place path)) full lacks)

pub place_lem : (path : Text) → place path ≡ walk (rooted path) [] (split path slash)
unfolding place
place_lem path = refl

-- Cleaning a path does not change where it leads.
pub place-clean : (path : Text) → place (clean path) ≡ place path
place-clean path =
    place_lem (clean path)
    ∙ ap (λ r. walk r [] (split (clean path) slash)) (rooted-clean path)
    ∙ ap (λ (t : Text). walk (rooted path) [] (split t slash)) (clean_lem path)
    ∙ walk_render (rooted path) (reverse (place path)) (place_names path).1
    ∙ walk_normal (rooted path) (place path) (place-IsNormal path)
