-- ===== src/Text/Joins.antt =====
-- Splitting a join gives the parts back.
use ovn_kubernetes_mcp.Text.Laws.{split_by-All}
use ovn_kubernetes_mcp.Prelude.{
  false, ◌==◌, refl, ap, ==_iff, arith, ◌∙◌, [], ◌∷◌, ◌++◌, ℕ, ◌≡◌, List, All,
}
use ovn_kubernetes_mcp.Text.{Text, split_by, split, join}

-- A text without the separator.
abbrev pub Lacks : ℕ → Text → Type 0
Lacks sep = All (λ c. (c == sep) ≡ false)

pub split_lacking : (s : Text) (sep : ℕ) → Lacks sep s → split s sep ≡ s ∷ []
unfolding split split_by
split_lacking [] sep h = refl
split_lacking (c ∷ s) sep (e, h) = rw (e, split_lacking s sep h)

pub split-append_sep :
    (p s : Text) (sep : ℕ) → Lacks sep p → split (p ++ (sep ∷ s)) sep ≡ p ∷ split s sep
unfolding split split_by
split-append_sep [] s sep h = ground (arith, ==_iff sep sep)
split-append_sep (c ∷ p) s sep (e, h) = rw (e, split-append_sep p s sep h)

-- Splitting a join of one or more parts that lack the separator gives the parts back.
pub split-join :
    (p : Text) (ps : List Text) (sep : ℕ)
    → All (Lacks sep) (p ∷ ps)
    → split (join (p ∷ ps) sep) sep ≡ p ∷ ps
unfolding join
split-join p [] sep (h, _) = split_lacking p sep h
split-join p (q ∷ ps) sep (h, hs) =
    split-append_sep p (join (q ∷ ps) sep) sep h
    ∙ ap (λ (t : List Text). p ∷ t) (split-join q ps sep hs)

-- No part of a split holds the separator.
pub split-Lacks : (s : Text) (sep : ℕ) → All (Lacks sep) (split s sep)
unfolding split
split-Lacks s sep = split_by-All (λ c. c == sep) s
