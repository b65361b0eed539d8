-- ===== src/Kernel/ReportOf.antt =====
use ovn_kubernetes_mcp.Utils.Lines.Laws.{nonempty_of}
use ovn_kubernetes_mcp.Text.Occurs.{contains_iff}
use ovn_kubernetes_mcp.Utils.HeadTail.Laws.{apply-IsWindow, IsWindow}
use ovn_kubernetes_mcp.Kernel.Report.{has_no_warning_sound, NoWarning}
use ovn_kubernetes_mcp.Text.Joins.{split-Lacks, split-join, Lacks}
use ovn_kubernetes_mcp.Prelude.{
  Selection-keep, All-keep_of, nonempty-is_empty, ◌∙◌, refl, [], ◌≢◌, ap, arith, ◌∷◌, ◌↔◌, is_empty,
  ◌&&◌, keep, not, true, Selection, All, ◌≡◌, Bool, List,
}
use ovn_kubernetes_mcp.Utils.HeadTail.{apply, HeadTailParams}
use ovn_kubernetes_mcp.Kernel.Util.{has_no_warning, render, filter_warnings}
use ovn_kubernetes_mcp.Text.{codes, trim_space, contains, join, split, Text}
use ovn_kubernetes_mcp.Utils.Lines.{newline, strip_empty_lines}

-- Which lines of a command's output the tools of pkg/kernel/mcp return.

pub has_no_warning_iff : (line : Text) → (has_no_warning line ≡ true) ↔ NoWarning line
has_no_warning_iff line = (
  has_no_warning_sound line,
  λ h. ground (
    arith,
    contains_iff line (codes "Warning"),
    contains_iff line (codes "warning"),
    contains_iff line (codes "WARNING"),
    h.no_title,
    h.no_lower,
    h.no_upper,
  ),
)

-- `out` is what head and tail leave, at most 100 lines without them, of the lines of `stdout` that are
-- not blank and do not warn.
pub record IsReportOf (params : HeadTailParams) (stdout out : Text) : Type 0 where
  pub shown : List Text
  pub part : List Text
  pub chosen : Selection (λ l. NoWarning l × (trim_space l ≢ [])) shown (split stdout newline)
  pub window : IsWindow params 100 part shown
  pub text : out ≡ join part newline

abbrev not_blank : Text → Bool
not_blank line = not (is_empty (trim_space line))

not_blank_iff : (line : Text) → (not_blank line ≡ true) ↔ (trim_space line ≢ [])
not_blank_iff line = (nonempty_of (trim_space line), λ h. rw (nonempty-is_empty _ h) refl)

strip_empty_lines-keep : (lines : List Text) → strip_empty_lines lines ≡ keep not_blank lines
unfolding strip_empty_lines
strip_empty_lines-keep [] = refl
strip_empty_lines-keep (l ∷ ls) = refl

strip_joined :
    (lines : List Text)
    → All (Lacks newline) lines
    → strip_empty_lines (split (join lines newline) newline) ≡ keep not_blank lines
strip_joined [] h = unfold split join strip_empty_lines trim_space in refl
strip_joined (l ∷ ls) h = rw (split-join l ls newline h) (strip_empty_lines-keep (l ∷ ls))

keep-keep : (p q : Text → Bool) (xs : List Text) → keep p (keep q xs) ≡ keep (λ x. q x && p x) xs
keep-keep p q [] = refl
keep-keep p q (x ∷ xs) = ground (arith, keep-keep p q xs)

pub filter_warnings-join :
    (s : Text) → filter_warnings s ≡ join (keep has_no_warning (split s newline)) newline
unfolding filter_warnings
filter_warnings-join [] = unfold split join contains in refl
filter_warnings-join (c ∷ s) = refl

-- Taking out the lines that warn and then those that are blank leaves the lines of a report, in order.
pub render-IsReportOf :
    (params : HeadTailParams) (stdout : Text)
    → IsReportOf params stdout (render params (filter_warnings stdout))
unfolding render
render-IsReportOf params stdout =
    let lines = split stdout newline in
    let kept_lines = keep (λ l. has_no_warning l && not_blank l) lines in
    let same : strip_empty_lines (split (filter_warnings stdout) newline) ≡ kept_lines =
      ap (λ (t : Text). strip_empty_lines (split t newline)) (filter_warnings-join stdout)
      ∙ strip_joined (keep has_no_warning lines)
          (All-keep_of (Lacks newline) has_no_warning lines (split-Lacks stdout newline))
      ∙ keep-keep not_blank has_no_warning lines in
    record {
      shown = kept_lines;
      part = apply params kept_lines 100;
      chosen = Selection-keep _ _ lines λ l. (
        λ h. ((has_no_warning_iff l).0 (ground arith), (not_blank_iff l).0 (ground arith)),
        λ (a, b). rw ((has_no_warning_iff l).1 a, (not_blank_iff l).1 b) refl,
      );
      window = apply-IsWindow params kept_lines 100;
      text = rw same refl;
    }
