-- ===== src/Utils/Lines/Laws.antt =====
-- What `StripEmptyLines` leaves.
use mathlib.Core.List.{cons-ne-nil}
use ovn_kubernetes_mcp.Prelude.{
  ◌≡◌, ◌≢◌, true, not, List, [], ◌∷◌, All, All-keep, All-mono, All-keep_of, is_empty,
}
use ovn_kubernetes_mcp.Text.{Text, trim_space}
use ovn_kubernetes_mcp.Utils.Lines.{strip_empty_lines}

pub strip_empty_lines-All :
    (P : Text → Type 0) (lines : List Text) → All P lines → All P (strip_empty_lines lines)
unfolding strip_empty_lines
strip_empty_lines-All P [] h = tt
strip_empty_lines-All P (l ∷ ls) h = All-keep_of P (λ x. not (is_empty (trim_space x))) (l ∷ ls) h

pub nonempty_of : (l : Text) → not (is_empty l) ≡ true → l ≢ []
nonempty_of [] h = cc
nonempty_of (c ∷ s) h = cons-ne-nil c s

pub strip_empty_lines-not_blank :
    (lines : List Text) → All (λ l. trim_space l ≢ []) (strip_empty_lines lines)
unfolding strip_empty_lines
strip_empty_lines-not_blank [] = tt
strip_empty_lines-not_blank (l ∷ ls) =
    All-mono (λ x h. nonempty_of (trim_space x) h) _
      (All-keep (λ x. not (is_empty (trim_space x))) (l ∷ ls))
