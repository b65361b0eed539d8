-- ===== src/Text/Paths/Below.antt =====
-- When a path leads into a directory: what joining does, and what the two guards of the program check.
use mathlib.Core.List.{reverse-append, reverse-reverse}
use ovn_kubernetes_mcp.Prelude.{
  ==_iff, ℕ, ◌≡◌, ◌≢◌, refl, sym, ap, ◌∙◌, inl, inr, true, List, [], ◌∷◌, ◌++◌, ◌==◌, All, arith,
  reverse, append_assoc, Bool-cases,
}
use ovn_kubernetes_mcp.Text.{onto_head, Text, split, split_by, join, has_prefix}
use ovn_kubernetes_mcp.Text.Laws.{split_by-cons, has_prefix_iff}
use ovn_kubernetes_mcp.Text.Joins.{Lacks}
use ovn_kubernetes_mcp.Text.Paths.{slash, walk, rooted, render_path, clean, join_paths}
use ovn_kubernetes_mcp.Text.Paths.Laws.{
  place_names, clean_lem, split_rooted, rooted-clean, place, walk-append, place-clean,
}

-- The path leads to the directory or to something in it, at any depth.
abbrev pub IsBelow : Text → Text → Type 0
IsBelow directory path = (deeper : List Text) × (place path ≡ deeper ++ place directory)

onto_head-append :
    (c : ℕ) (ps qs : List Text) → ps ≢ [] → onto_head c (ps ++ qs) ≡ onto_head c ps ++ qs
onto_head-append c [] qs h = absurd (h refl)
onto_head-append c (p ∷ ps) qs h = refl

pub split-append : (s t : Text) (sep : ℕ) → split (s ++ (sep ∷ t)) sep ≡ split s sep ++ split t sep
unfolding split split_by
split-append [] t sep = ground (arith, ==_iff sep sep)
split-append (c ∷ s) t sep =
    let (q, qs, r) = split_by-cons (λ d. d == sep) s in
    elim (Bool-cases (c == sep)) [
      | inl e ↦ rw (e, split-append s t sep) refl
      | inr e ↦ rw (e, split-append s t sep, r) refl
    ]

rooted-append : (c : ℕ) (s t : Text) → rooted ((c ∷ s) ++ t) ≡ rooted (c ∷ s)
rooted-append c s t = refl

-- Joining walks on from where the first path leads.
pub place-join :
    (c : ℕ) (s path : Text)
    → place (join_paths ((c ∷ s) ∷ path ∷ []))
      ≡ walk (rooted (c ∷ s)) (place (c ∷ s)) (split path slash)
place-join c s path =
    let joined : join_paths ((c ∷ s) ∷ path ∷ []) ≡ clean ((c ∷ s) ++ (slash ∷ path)) =
      unfold join_paths join in refl in
    let opened : place ((c ∷ s) ++ (slash ∷ path))
        ≡ walk (rooted (c ∷ s)) [] (split ((c ∷ s) ++ (slash ∷ path)) slash) =
      unfold place in refl in
    let first : place (c ∷ s) ≡ walk (rooted (c ∷ s)) [] (split (c ∷ s) slash) =
      unfold place in refl in
    rw
      (
        joined,
        place-clean ((c ∷ s) ++ (slash ∷ path)),
        opened,
        split-append (c ∷ s) path slash,
        first,
      )
      (walk-append (rooted (c ∷ s)) [] (split (c ∷ s) slash) (split path slash))

pub rooted-join :
    (c : ℕ) (s path : Text) → rooted (join_paths ((c ∷ s) ∷ path ∷ [])) ≡ rooted (c ∷ s)
rooted-join c s path =
    let joined : join_paths ((c ∷ s) ∷ path ∷ []) ≡ clean ((c ∷ s) ++ (slash ∷ path)) =
      unfold join_paths join in refl in
    rw joined (rooted-clean ((c ∷ s) ++ (slash ∷ path)))

-- Cutting a common last part.
init-eq :
    (xs ys zs : List Text) (a : Text)
    → xs ++ (a ∷ []) ≡ ys ++ zs
    → zs ≢ []
    → (ms : List Text) × (xs ≡ ys ++ ms)
init-eq xs [] zs a e h = (xs, refl)
init-eq [] (y ∷ ys) [] a e h = absurd (h refl)
init-eq [] (y ∷ []) (z ∷ zs) a e h = cc
init-eq [] (y ∷ y' ∷ ys) (z ∷ zs) a e h = cc
init-eq (x ∷ xs) (y ∷ ys) zs a e h = let (ms, f) = init-eq xs ys zs a (cc) h in (ms, cc)

split-nonempty : (s : Text) (sep : ℕ) → split s sep ≢ []
unfolding split
split-nonempty s sep h = let (q, qs, r) = split_by-cons (λ c. c == sep) s in cc

-- A text that begins with another and a separator splits into the parts of the other and more.
split-prefix :
    (s t : Text) (sep : ℕ)
    → has_prefix (s ++ (sep ∷ [])) (t ++ (sep ∷ [])) ≡ true
    → (ms : List Text) × (split s sep ≡ split t sep ++ ms)
split-prefix s t sep h =
    let (r, e) = (has_prefix_iff (s ++ (sep ∷ [])) (t ++ (sep ∷ []))).0 h in
    let last : split [] sep ≡ [] ∷ [] = unfold split split_by in refl in
    let regroup : (t ++ (sep ∷ [])) ++ r ≡ t ++ (sep ∷ r) = append_assoc t (sep ∷ []) r in
    init-eq (split s sep) (split t sep) (split r sep) []
      (ap (λ (l : List Text). split s sep ++ l) (sym last)
        ∙ sym (split-append s [] sep)
        ∙ ap (λ (u : Text). split u sep) (e ∙ regroup)
        ∙ split-append t r sep)
      (split-nonempty r sep)

prefix_names :
    (ds bs ms : List Text)
    → All (Lacks slash) ds
    → All (Lacks slash) bs
    → All (λ n. n ≢ []) bs
    → split (render_path true ds) slash ≡ split (render_path true bs) slash ++ ms
    → (more : List Text) × (ds ≡ bs ++ more)
prefix_names ds [] ms ld lb h e = (ds, refl)
prefix_names [] (b ∷ bs) ms ld lb (h, _) e =
    let root : split (render_path true []) slash ≡ [] ∷ [] ∷ [] =
      unfold split split_by join in refl in
    absurd (h (cc (root, split_rooted b bs lb, e)))
prefix_names (d ∷ ds) (b ∷ bs) ms ld lb h e =
    (ms, cc (split_rooted d ds ld, split_rooted b bs lb, e))

-- What the guard of the archive checks: of two paths with a root, the cleaned one begins with the other.
pub IsBelow-of_prefix :
    (directory path : Text)
    → rooted directory ≡ true
    → rooted path ≡ true
    → has_prefix (clean path ++ (slash ∷ [])) (clean directory ++ (slash ∷ [])) ≡ true
    → IsBelow directory path
IsBelow-of_prefix directory path rd rp h =
    let (ms, e) = split-prefix (clean path) (clean directory) slash h in
    let shape_p : clean path ≡ render_path true (reverse (place path)) =
      clean_lem path ∙ ap (λ r. render_path r (reverse (place path))) rp in
    let shape_d : clean directory ≡ render_path true (reverse (place directory)) =
      clean_lem directory ∙ ap (λ r. render_path r (reverse (place directory))) rd in
    let (full, lacks) = place_names directory in
    let (more, f) =
      prefix_names (reverse (place path)) (reverse (place directory)) ms (place_names path).1 lacks
        full
        (sym (ap (λ (t : Text). split t slash) shape_p)
          ∙ e
          ∙ ap (λ (t : Text). split t slash ++ ms) shape_d) in
    (
      reverse more,
      sym (reverse-reverse (place path))
          ∙ ap (λ (l : List Text). reverse l) f
          ∙ reverse-append (reverse (place directory)) more
          ∙ ap (λ (l : List Text). reverse more ++ l) (reverse-reverse (place directory)),
    )
