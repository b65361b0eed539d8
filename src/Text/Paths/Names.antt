-- ===== src/Text/Paths/Names.antt =====
-- Joining a path with plain names.
use ovn_kubernetes_mcp.Prelude.{
  refl, ◌≡◌, ◌≢◌, ap, ◌∙◌, Bool, true, false, ◌||◌, List, [], ◌∷◌, ◌++◌, arith,
}
use ovn_kubernetes_mcp.Text.{Text, codes, text_eq, join}
use ovn_kubernetes_mcp.Text.Laws.{text_eq_iff}
use ovn_kubernetes_mcp.Text.Joins.{split-append_sep, Lacks, split_lacking}
use ovn_kubernetes_mcp.Text.Paths.{slash, step_into, walk, rooted, join_paths}
use ovn_kubernetes_mcp.Text.Paths.Laws.{place, rooted-clean}
use ovn_kubernetes_mcp.Text.Paths.Below.{place-join}

-- The name of an entry of a directory, as `os.ReadDir` lists it.
abbrev pub IsEntryName : Text → Type 0
IsEntryName n = (n ≢ []) × (n ≢ codes ".") × (n ≢ codes "..") × Lacks slash n

step_into-name :
    (r : Bool) (above : List Text) (n : Text) → IsEntryName n → step_into r above n ≡ n ∷ above
unfolding step_into
step_into-name r above n (a, b, c, l) =
    let blank : text_eq n [] || text_eq n (codes ".") ≡ false =
      ground (arith, text_eq_iff n [], text_eq_iff n (codes ".")) in
    let up : text_eq n (codes "..") ≡ false = ground (arith, text_eq_iff n (codes "..")) in
    rw (blank, up)

pub rooted-join_paths :
    (p : Text) (ps : List Text) → rooted p ≡ true → rooted (join_paths (p ∷ ps)) ≡ true
unfolding join_paths join
rooted-join_paths [] ps h = cc
rooted-join_paths (c ∷ s) [] h = rooted-clean (c ∷ s) ∙ h
rooted-join_paths (c ∷ s) (q ∷ ps) h = rooted-clean ((c ∷ s) ++ (slash ∷ join (q ∷ ps) slash)) ∙ h

-- A name joined to a path with a root leads to that entry of the directory.
pub place-join_name :
    (p n : Text) → rooted p ≡ true → IsEntryName n → place (join_paths (p ∷ n ∷ [])) ≡ n ∷ place p
unfolding walk
place-join_name [] n h e = cc
place-join_name (c ∷ s) n h e =
    place-join c s n
    ∙ ap (walk (rooted (c ∷ s)) (place (c ∷ s))) (split_lacking n slash e.3)
    ∙ step_into-name (rooted (c ∷ s)) (place (c ∷ s)) n e

-- Two names joined to a path with a root lead to an entry of an entry of the directory.
pub place-join_names :
    (p n m : Text)
    → rooted p ≡ true
    → IsEntryName n
    → IsEntryName m
    → place (join_paths (p ∷ n ∷ m ∷ [])) ≡ m ∷ n ∷ place p
unfolding walk
place-join_names [] n m h e f = cc
place-join_names (c ∷ s) n m h e f =
    let joined : join_paths ((c ∷ s) ∷ n ∷ m ∷ [])
        ≡ join_paths ((c ∷ s) ∷ (n ++ (slash ∷ m)) ∷ []) =
      unfold join_paths join in refl in
    ap place joined
    ∙ place-join c s (n ++ (slash ∷ m))
    ∙ ap (walk (rooted (c ∷ s)) (place (c ∷ s)))
        (split-append_sep n m slash e.3 ∙ ap (λ (l : List Text). n ∷ l) (split_lacking m slash f.3))
    ∙ ap (λ (a : List Text). step_into (rooted (c ∷ s)) a m)
        (step_into-name (rooted (c ∷ s)) (place (c ∷ s)) n e)
    ∙ step_into-name (rooted (c ∷ s)) (n ∷ place (c ∷ s)) m f
