-- ===== src/Text/Paths/Parents.antt =====
-- The directory that holds a path.
use ovn_kubernetes_mcp.Prelude.{
  ℕ, ◌||◌, if◌then◌else◌, ==_iff, not, is_empty, ◌≡◌, refl, sym, ap, ◌∙◌, ◌⊎◌, inl, inr, Bool, true,
  false, List, [], ◌∷◌, ◌++◌, arith, Bool-cases, ◌==◌, reverse, All,
}
use mathlib.Core.Path.{subst}
use mathlib.Core.List.{reverse-cons}
use ovn_kubernetes_mcp.Text.{Text, split, split_by, join}
use ovn_kubernetes_mcp.Text.Joins.{Lacks, split_lacking}
use ovn_kubernetes_mcp.Text.Paths.Below.{split-append}
use ovn_kubernetes_mcp.Text.Paths.{
  slash, step_into, walk, rooted, render_path, clean, through_slash, dir,
}
use ovn_kubernetes_mcp.Text.Paths.Laws.{
  place, walk-append, place_lem, place-clean, clean_lem, rooted-clean, place-IsNormal, place_names,
  split_rooted, IsNormal, walk_normal,
}

-- A text without a slash, or the text around its last slash.
abbrev Cut : Text → Type 0
Cut p =
    (Lacks slash p × (through_slash p ≡ []))
    ⊎ ((a : Text) × (b : Text) × (p ≡ a ++ (slash ∷ b))
        × Lacks slash b
        × (through_slash p ≡ a ++ (slash ∷ [])))

nonempty_end : (a : Text) → not (is_empty (a ++ (slash ∷ []))) ≡ true
nonempty_end [] = refl
nonempty_end (c ∷ a) = refl

kept_end :
    (b : Bool) (c : ℕ) (a : Text)
    → (if b || not (is_empty (a ++ (slash ∷ []))) then c ∷ (a ++ (slash ∷ [])) else [])
      ≡ c ∷ (a ++ (slash ∷ []))
kept_end true c a = refl
kept_end false c a = rw (nonempty_end a) refl

cut : (p : Text) → Cut p
unfolding through_slash
cut [] = inl (tt, refl)
cut (c ∷ s) = elim (cut s) [
  | inl (l, e) ↦ elim (Bool-cases (c == slash)) [
    | inl q ↦ inr (
      [],
      s,
      ap (λ d. d ∷ s) ((==_iff c slash).0 q),
      l,
      rw (e, q) (ap (λ d. d ∷ []) ((==_iff c slash).0 q)),
    )
    | inr q ↦ inl ((q, l), rw (e, q) refl)
  ]
  | inr (a, b, e, l, f) ↦
      inr (c ∷ a, b, ap (λ (t : Text). c ∷ t) e, l, rw f (kept_end (c == slash) c a))
]

blank : split [] slash ≡ [] ∷ []
unfolding split split_by
blank = refl

-- The parts of the two texts: they differ in the last, which is blank before the cut.
cut_parts :
    (p : Text)
    → (front : List Text) × (last : Text) × (split p slash ≡ front ++ last ∷ [])
      × (split (through_slash p) slash ≡ front ++ [] ∷ [])
cut_parts p = elim (cut p) [
  | inl (l, e) ↦ ([], p, split_lacking p slash l, ap (λ (t : Text). split t slash) e ∙ blank)
  | inr (a, b, e, l, f) ↦ (
    split a slash,
    b,
    ap (λ (t : Text). split t slash) e
        ∙ split-append a b slash
        ∙ ap (λ (ps : List Text). split a slash ++ ps) (split_lacking b slash l),
    ap (λ (t : Text). split t slash) f
        ∙ split-append a [] slash
        ∙ ap (λ (ps : List Text). split a slash ++ ps) blank,
  )
]

rooted-through_slash : (p : Text) → rooted p ≡ true → rooted (through_slash p) ≡ true
rooted-through_slash [] h = cc
rooted-through_slash (c ∷ s) h = elim (cut (c ∷ s)) [
  | inl ((l, k), e) ↦ absurd (ground (arith, h, l))
  | inr ([], b, e, l, f) ↦ rw f refl
  | inr (d ∷ a, b, e, l, f) ↦
      let same : rooted ((d ∷ a) ++ (slash ∷ b)) ≡ true = sym (ap (λ (t : Text). rooted t) e) ∙ h in
      rw f same
]

pub rooted-dir : (p : Text) → rooted p ≡ true → rooted (dir p) ≡ true
unfolding dir
rooted-dir p h = rooted-clean (through_slash p) ∙ rooted-through_slash p h

snoc-front : (xs ys : List Text) (a b : Text) → xs ++ a ∷ [] ≡ ys ++ b ∷ [] → xs ≡ ys
snoc-front [] [] a b h = refl
snoc-front [] (y ∷ []) a b h = cc
snoc-front [] (y ∷ y' ∷ ys) a b h = cc
snoc-front (x ∷ []) [] a b h = cc
snoc-front (x ∷ x' ∷ xs) [] a b h = cc
snoc-front (x ∷ xs) (y ∷ ys) a b h = let more = snoc-front xs ys a b cc in cc

pub clean-dir : (p : Text) → clean (dir p) ≡ dir p
unfolding dir
clean-dir p =
    let t = through_slash p in
    clean_lem (clean t)
    ∙ ap (λ (r : Bool). render_path r (reverse (place (clean t)))) (rooted-clean t)
    ∙ ap (λ (ns : List Text). render_path (rooted t) (reverse ns)) (place-clean t)
    ∙ sym (clean_lem t)

last_blank : (above : List Text) → walk true above ([] ∷ []) ≡ above
unfolding walk step_into
last_blank above = refl

-- Where the directory of a path leads, by the parts of the path before its last.
place-dir_parts :
    (p : Text)
    → rooted p ≡ true
    → (front : List Text) × (last : Text) × (split p slash ≡ front ++ last ∷ [])
      × (place (dir p) ≡ walk true [] front)
unfolding dir
place-dir_parts p h =
    let (front, last, e, f) = cut_parts p in
    (
      front,
      last,
      e,
      place-clean (through_slash p)
          ∙ place_lem (through_slash p)
          ∙ ap (λ (r : Bool). walk r [] (split (through_slash p) slash)) (rooted-through_slash p h)
          ∙ ap (walk true []) f
          ∙ walk-append true [] front ([] ∷ [])
          ∙ last_blank (walk true [] front),
    )

dir_root : dir (render_path true []) ≡ render_path true []
unfolding dir clean through_slash join split split_by walk step_into
dir_root = refl

split_names :
    (m : Text) (ms : List Text)
    → All (Lacks slash) (ms ++ m ∷ [])
    → split (render_path true (ms ++ m ∷ [])) slash ≡ ([] ∷ ms) ++ m ∷ []
split_names m [] l = split_rooted m [] l
split_names m (n ∷ ms) l = split_rooted n (ms ++ m ∷ []) l

first_blank : (ns : List Text) → walk true [] ([] ∷ ns) ≡ walk true [] ns
unfolding walk step_into
first_blank ns = refl

inner :
    (p n : Text) (above : List Text)
    → rooted p ≡ true
    → p ≡ render_path true (reverse (n ∷ above))
    → All (Lacks slash) (reverse (n ∷ above))
    → IsNormal true above
    → place (dir p) ≡ above
inner p n above h shape lacks normal =
    let (front, last, e, f) = place-dir_parts p h in
    let snoc = reverse-cons n above in
    let parts : split p slash ≡ ([] ∷ reverse above) ++ n ∷ [] =
      ap (λ (t : Text). split t slash) shape
      ∙ ap (λ (ns : List Text). split (render_path true ns) slash) snoc
      ∙ split_names n (reverse above) (subst (All (Lacks slash)) snoc lacks) in
    f
    ∙ ap (walk true []) (snoc-front front ([] ∷ reverse above) last n (sym e ∙ parts))
    ∙ first_blank (reverse above)
    ∙ walk_normal true above normal

-- The directory of a cleaned path with a root leads to one name less, but for the root, which is its
-- own directory.
pub place-dir :
    (p : Text)
    → rooted p ≡ true
    → clean p ≡ p
    → (dir p ≡ p) ⊎ ((n : Text) × (place p ≡ n ∷ place (dir p)))
place-dir p h c = from_place (place p) refl
  where
    shape : p ≡ render_path true (reverse (place p))
    shape = sym c ∙ clean_lem p ∙ ap (λ (r : Bool). render_path r (reverse (place p))) h

    from_place :
        (st : List Text) → place p ≡ st → (dir p ≡ p) ⊎ ((n : Text) × (place p ≡ n ∷ place (dir p)))
    from_place [] e = inl (
        let root : p ≡ render_path true [] =
          shape ∙ ap (λ (st : List Text). render_path true (reverse st)) e in
        ap dir root ∙ dir_root ∙ sym root)
    from_place (n ∷ above) e = inr (
      n,
      e
          ∙ ap (λ (st : List Text). n ∷ st)
              (sym (
                inner p n above h (shape ∙ ap (λ (st : List Text). render_path true (reverse st)) e)
                  (subst (λ (st : List Text). All (Lacks slash) (reverse st)) e (place_names p).1)
                  (subst (IsNormal true) e
                    (subst (λ (r : Bool). IsNormal r (place p)) h (place-IsNormal p))).3)),
    )
