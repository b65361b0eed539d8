-- ===== src/Kernel/Conntrack/Summary.antt =====
-- What `splitConntrackSummary` of pkg/kernel/mcp/util.go makes of a standard error, and what
-- `GetConntrack` takes from it.
use ovn_kubernetes_mcp.Kernel.Conntrack.SummaryLine.{IsSummaryLine, conntrack_summary_pattern_iff}
use ovn_kubernetes_mcp.Kernel.ReportOf.{has_no_warning_iff, filter_warnings-join}
use ovn_kubernetes_mcp.Utils.Lines.{newline}
use ovn_kubernetes_mcp.Kernel.Report.{NoWarning}
use ovn_kubernetes_mcp.Text.Joins.{split-Lacks, split-join, Lacks}
use ovn_kubernetes_mcp.Kernel.Conntrack.{conntrack_summary}
use ovn_kubernetes_mcp.Kernel.Util.{
  has_no_warning, split_conntrack_summary, filter_warnings, conntrack_summary_pattern,
}
use ovn_kubernetes_mcp.Prelude.{
  is_empty-eq, is_empty, All-mono, Selection-keep, All-keep_of, ok, not, keep, Selection, ℕ, List,
  inr, refl, ◌⊎◌, true, inl, Bool-cases, [], ◌∷◌, Bool, All, ◌≡◌,
}
use ovn_kubernetes_mcp.Text.{split, join, Text}

-- The lines that `conntrackSummaryPattern` of pkg/kernel/mcp/util.go matches, and what
-- `splitConntrackSummary` makes of a standard error.

-- What a standard error says besides warnings is summary lines and blank lines, and `summary` is the
-- summary lines, in order.
pub record IsSummaryOf (stderr summary : Text) : Type 0 where
  pub said : List Text
  pub lines : List Text
  pub without_warnings : Selection NoWarning said (split stderr newline)
  pub nothing_else : All (λ l. IsSummaryLine l ⊎ (l ≡ [])) said
  pub are_summary : Selection IsSummaryLine lines said
  pub text : summary ≡ join lines newline

join-eq-nil : (ps : List Text) (sep : ℕ) → join ps sep ≡ [] → All (λ p. p ≡ []) ps
unfolding join
join-eq-nil [] sep e = tt
join-eq-nil (p ∷ []) sep e = (e, tt)
join-eq-nil ([] ∷ q ∷ ps) sep e = cc
join-eq-nil ((c ∷ p) ∷ q ∷ ps) sep e = cc

All-kept_or :
    (P : Text → Type 0) (p : Text → Bool) (xs : List Text)
    → All P (keep (λ x. not (p x)) xs)
    → All (λ x. (p x ≡ true) ⊎ P x) xs
All-kept_or P p [] h = tt
All-kept_or P p (x ∷ xs) h = elim (Bool-cases (p x)) [
  | inl e ↦ (inl e, All-kept_or P p xs (rw (e, keep) at h))
  | inr e ↦ let (first, rest) = rw (e, keep) at h in (inr first, All-kept_or P p xs rest)
]

conntrack_summary-eq-ok :
    (t summary : Text)
    → conntrack_summary t ≡ ok summary
    → (summary ≡ join (keep conntrack_summary_pattern (split t newline)) newline)
      × (join (keep (λ l. not (conntrack_summary_pattern l)) (split t newline)) newline ≡ [])
unfolding conntrack_summary split_conntrack_summary
conntrack_summary-eq-ok [] summary e =
    let same : summary ≡ [] = cc in unfold split join conntrack_summary_pattern in (same, refl)
conntrack_summary-eq-ok (c ∷ s) summary e =
    let lines = split (c ∷ s) newline in
    let rest = join (keep (λ l. not (conntrack_summary_pattern l)) lines) newline in
    elim (Bool-cases (is_empty rest)) [
      | inl z ↦
          let found = rw z at e in
          let same : summary ≡ join (keep conntrack_summary_pattern lines) newline = cc in
          (same, is_empty-eq rest z)
      | inr z ↦ let bad = rw z at e in absurd cc
    ]

no_lines-summary :
    (summary : Text) → conntrack_summary (join [] newline) ≡ ok summary → summary ≡ join [] newline
unfolding conntrack_summary join
no_lines-summary summary e = cc

-- The split of a join of no line is one blank line, which no list of summary lines has.
split_joined :
    (lines : List Text) (summary : Text)
    → All (Lacks newline) lines
    → conntrack_summary (join lines newline) ≡ ok summary
    → (summary ≡ join (keep conntrack_summary_pattern lines) newline)
      × (join (keep (λ l. not (conntrack_summary_pattern l)) lines) newline ≡ [])
split_joined [] summary h e = (no_lines-summary summary e, unfold join in refl)
split_joined (l ∷ ls) summary h e =
    let found = conntrack_summary-eq-ok (join (l ∷ ls) newline) summary e in
    rw (split-join l ls newline h) at found

pub conntrack_summary-IsSummaryOf :
    (stderr summary : Text)
    → conntrack_summary (filter_warnings stderr) ≡ ok summary
    → IsSummaryOf stderr summary
conntrack_summary-IsSummaryOf stderr summary e =
    let said = keep has_no_warning (split stderr newline) in
    let (same, empty) =
      split_joined said summary
        (All-keep_of (Lacks newline) has_no_warning _ (split-Lacks stderr newline))
        (rw (filter_warnings-join stderr) at e) in
    record {
      said = said;
      lines = keep conntrack_summary_pattern said;
      without_warnings = Selection-keep _ has_no_warning _ has_no_warning_iff;
      nothing_else =
          All-mono
            (λ l h. elim h [ inl m ↦ inl ((conntrack_summary_pattern_iff l).0 m) | inr b ↦ inr b ])
            said (All-kept_or _ conntrack_summary_pattern said (join-eq-nil _ newline empty));
      are_summary = Selection-keep _ conntrack_summary_pattern said conntrack_summary_pattern_iff;
      text = same;
    }
