-- ===== src/Pods/Laws.antt =====
-- What a command in a pod calls and what it returns.
use ovn_kubernetes_mcp.Utils.HeadTail.Runs.{window-All}
use ovn_kubernetes_mcp.Prelude.{
  ℕ, true, inr, inl, Bool, All-both, ◌≡◌, ◌≢◌, List, [], All, length, String,
}
use ovn_kubernetes_mcp.Text.{Text, trim_space, split}
use ovn_kubernetes_mcp.Text.Joins.{Lacks, split-Lacks}
use ovn_kubernetes_mcp.Exec.{Context, Call, M, ◌>>=◌, pod_exec}
use ovn_kubernetes_mcp.Exec.Laws.{Ensures, Ensures-bind, Ensures-lift, Ensures-issue}
use ovn_kubernetes_mcp.Utils.Lines.{strip_empty_lines}
use ovn_kubernetes_mcp.Utils.Lines.Laws.{strip_empty_lines-All, strip_empty_lines-not_blank}
use ovn_kubernetes_mcp.Utils.HeadTail.{HeadTailParams, apply}
use ovn_kubernetes_mcp.Utils.HeadTail.Runs.{IsRun}
use ovn_kubernetes_mcp.Utils.HeadTail.Laws.{Within, apply-Within, apply-IsWindow}
use ovn_kubernetes_mcp.Utils.Pattern.{PatternParams, Regexp, execute_with_match}
use ovn_kubernetes_mcp.Utils.Pattern.Laws.{MatchesAll, execute_with_match-All}
use ovn_kubernetes_mcp.Pods.{pod_lines}
use ovn_kubernetes_mcp.Utils.Lines.{newline}

-- A line of a result: not blank, and without a line break.
abbrev pub IsLine : Text → Type 0
IsLine l = (trim_space l ≢ []) × Lacks newline l

-- The command runs in the default container of the pod that was asked for, and its arguments are as
-- `Argv` says.
pub data IsPodCall (ctx : Context) (namespace name : Text) (Argv : List Text → Type 0)
    : Call → Type 0 where
  in_pod :
      {command : List Text}
      → Argv command
      → IsPodCall ctx namespace name Argv (
          pod_exec (record {
            ctx = ctx;
            namespace = namespace;
            name = name;
            container = [];
            command = command;
          }))

strip_empty_lines-IsLine : (stdout : Text) → All IsLine (strip_empty_lines (split stdout newline))
strip_empty_lines-IsLine stdout =
    All-both (λ l. trim_space l ≢ []) (Lacks newline) _
      (strip_empty_lines-not_blank (split stdout newline))
      (strip_empty_lines-All (Lacks newline) _ (split-Lacks stdout newline))

module _ (ctx : Context) (namespace name : Text) (Argv : List Text → Type 0) where
  pub Ensures-pod_lines :
      (command : List Text) (wrapped refused : String) (args : List Text)
      → Argv command
      → Ensures
          (IsPodCall ctx namespace name Argv)
          (All IsLine)
          (pod_lines ctx namespace name command wrapped refused args)
  unfolding pod_lines
  Ensures-pod_lines command wrapped refused args h =
      Ensures-issue _ _ _ _ (in_pod h) λ r.
        Ensures-lift _ _ _ _ λ _ _. Ensures-lift _ _ _ _ λ _ _. strip_empty_lines-IsLine r.stdout

-- A result: lines that are not blank and match the pattern where there is one, and no more of them than
-- head and tail allow.
pub record IsListing (compile : Regexp) (p : PatternParams) (h : HeadTailParams) (lines : List Text)
    : Type 0 where
  pub are_lines : All IsLine lines
  pub matching : MatchesAll compile p lines
  pub within : Within h 100 (length lines)

MatchesAll-window :
    (compile : Regexp) (p : PatternParams) {from count : ℕ} {part lines : List Text}
    → IsRun from count part lines
    → MatchesAll compile p lines
    → MatchesAll compile p part
MatchesAll-window compile p w (inl e) = inl e
MatchesAll-window compile p w (inr (test, e, a)) =
    inr (test, e, window-All (λ l. test l ≡ true) w a)

pub apply-IsListing :
    (compile : Regexp) (p : PatternParams) (h : HeadTailParams) (lines : List Text)
    → All IsLine lines × MatchesAll compile p lines
    → IsListing compile p h (apply h lines 100)
apply-IsListing compile p h lines (a, m) =
    let window = apply-IsWindow h lines 100 in
    record {
      are_lines = window-All IsLine window a;
      matching = MatchesAll-window compile p window m;
      within = apply-Within h lines 100;
    }

-- A listing from a command in a pod.
pub Ensures-listing :
    {B : Type 0} (compile : Regexp) (p : PatternParams) (h : HeadTailParams) (P : Call → Type 0)
    (R : B → Type 0) (m : M (List Text)) (allow : Bool) (f : List Text → M B)
    → Ensures P (All IsLine) m
    → ((lines : List Text) → IsListing compile p h (apply h lines 100) → Ensures P R (f lines))
    → Ensures P R (execute_with_match compile p m allow >>= f)
Ensures-listing compile p h P R m allow f k g =
    Ensures-bind P R f _ _ (execute_with_match-All compile p P IsLine m allow k)
      λ lines q. g lines (apply-IsListing compile p h lines q)
