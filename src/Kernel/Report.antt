-- ===== src/Kernel/Report.antt =====
-- What the kernel tools return: lines of the command's output, selected by head and tail.
use ovn_kubernetes_mcp.Utils.HeadTail.Runs.{window-All}
use ovn_kubernetes_mcp.Utils.Lines.Laws.{strip_empty_lines-not_blank, strip_empty_lines-All}
use ovn_kubernetes_mcp.Exec.Laws.{
  Ensures-wrap_all, Ensures-bind, Ensures-lift, Anything, Ensures-issue, Ensures,
}
use ovn_kubernetes_mcp.Utils.Lines.{strip_empty_lines}
use ovn_kubernetes_mcp.Utils.Lines.{newline}
use ovn_kubernetes_mcp.Kernel.Params.{Config}
use ovn_kubernetes_mcp.Exec.{◌>>◌, ◌>>=◌, done, wrap_all, call, ret, Context, Call, M}
use ovn_kubernetes_mcp.Prelude.{
  All-keep_of, reject_if, Error, String, err, ok, is_empty, not, length, All-keep, All-mono, ◌≢◌,
  refl, ◌∷◌, arith, keep, List, [], All, true, ◌≡◌,
}
use ovn_kubernetes_mcp.Text.{trim_space, contains, Text, codes, split, join}
use ovn_kubernetes_mcp.Text.Occurs.{Occurs, contains_iff}
use ovn_kubernetes_mcp.Text.Joins.{split-Lacks, Lacks, split-join}
use ovn_kubernetes_mcp.Utils.HeadTail.{HeadTailParams, apply}
use ovn_kubernetes_mcp.Utils.HeadTail.Laws.{apply-Within, Within, apply-IsWindow}
use ovn_kubernetes_mcp.Kernel.Util.{
  has_no_warning, filter_warnings, execute_command, render, default_max_output_lines,
}

-- "warning" does not occur, in any of the three spellings.
pub record NoWarning (line : Text) : Type 0 where
  pub no_title : ¬ Occurs (codes "Warning") line
  pub no_lower : ¬ Occurs (codes "warning") line
  pub no_upper : ¬ Occurs (codes "WARNING") line

-- A text of which no line warns.
abbrev pub NoWarnings : Text → Type 0
NoWarnings s = All NoWarning (split s newline)

-- The lines of a result: none is blank or warns, none holds a line break, and there are no more than the
-- parameters allow.
pub record IsReport (params : HeadTailParams) (out : Text) : Type 0 where
  pub lines : List Text
  pub text : out ≡ join lines newline
  pub no_warning : All NoWarning lines
  pub no_break : All (Lacks newline) lines
  pub not_blank : All (λ l. trim_space l ≢ []) lines
  pub within : Within params default_max_output_lines (length lines)

pub has_no_warning_sound : (line : Text) → has_no_warning line ≡ true → NoWarning line
has_no_warning_sound line h = record {
  no_title = λ o. ground (arith, contains_iff line (codes "Warning"));
  no_lower = λ o. ground (arith, contains_iff line (codes "warning"));
  no_upper = λ o. ground (arith, contains_iff line (codes "WARNING"));
}

-- The lines that are left are the lines of the text that `filterWarnings` returns.
split-join-All :
    (P : Text → Type 0) (lines : List Text)
    → P []
    → All (Lacks newline) lines
    → All P lines
    → All P (split (join lines newline) newline)
split-join-All P [] p h k = unfold split join in (p, tt)
split-join-All P (l ∷ ls) p h k = rw (split-join l ls newline h) k

NoWarning-nil : NoWarning []
NoWarning-nil = has_no_warning_sound [] (unfold contains in refl)

pub filter_warnings-NoWarnings : (s : Text) → NoWarnings (filter_warnings s)
unfolding filter_warnings
filter_warnings-NoWarnings [] = unfold split in (NoWarning-nil, tt)
filter_warnings-NoWarnings (c ∷ s) =
    let lines = split (c ∷ s) newline in
    split-join-All NoWarning (keep has_no_warning lines) NoWarning-nil
      (All-keep_of (Lacks newline) has_no_warning lines (split-Lacks (c ∷ s) newline))
      (All-mono has_no_warning_sound _ (All-keep has_no_warning lines))

pub render-IsReport :
    (params : HeadTailParams) (stdout : Text)
    → NoWarnings stdout
    → IsReport params (render params stdout)
unfolding render
render-IsReport params stdout h =
    let lines = strip_empty_lines (split stdout newline) in
    let window = apply-IsWindow params lines default_max_output_lines in
    record {
      lines = apply params lines default_max_output_lines;
      text = refl;
      no_warning = window-All NoWarning window (strip_empty_lines-All NoWarning _ h);
      no_break =
          window-All (Lacks newline) window
            (strip_empty_lines-All (Lacks newline) _ (split-Lacks stdout newline));
      not_blank = window-All _ window (strip_empty_lines-not_blank (split stdout newline));
      within = apply-Within params lines default_max_output_lines;
    }

-- No calls are asked about.
abbrev pub AnyCall : Call → Type 0
AnyCall c = Unit

-- The calls of a handler as far as they matter here.
pub Ensures-unit : {A : Type 0} (m : M A) → Ensures AnyCall Anything m
Ensures-unit (ret (ok a)) = tt
Ensures-unit (ret (err e)) = tt
Ensures-unit (call c k) = (tt, λ r. Ensures-unit (k r))

pub execute_command-NoWarnings :
    (cfg : Config) (ctx : Context) (namespace node : Text) (command : List Text)
    → Ensures AnyCall (λ out. NoWarnings out.0) (execute_command cfg ctx namespace node command)
unfolding execute_command
execute_command-NoWarnings cfg ctx namespace node command =
    Ensures-issue _ _ _ _ tt λ r. Ensures-lift _ _ _ _ λ _ _. filter_warnings-NoWarnings r.stdout

-- The end of a handler: run the command, refuse its standard error, render its standard output.
pub Ensures-IsReport :
    (cfg : Config) (ctx : Context) (namespace node : Text) (command : List Text)
    (params : HeadTailParams) (format : String) (complaint : Text → Error)
    → Ensures AnyCall (IsReport params) (
        wrap_all format [] (execute_command cfg ctx namespace node command) >>= λ (stdout, stderr).
        ret (reject_if (not (is_empty stderr)) (complaint stderr)) >> done (render params stdout))
Ensures-IsReport cfg ctx namespace node command params format complaint =
    Ensures-bind _ _ _ (λ out. NoWarnings out.0) _
      (Ensures-wrap_all _ _ _ _ _ (execute_command-NoWarnings cfg ctx namespace node command))
      λ out h. Ensures-lift _ _ _ _ λ _ _. render-IsReport params out.0 h
