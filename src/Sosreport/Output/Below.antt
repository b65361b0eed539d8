-- ===== src/Sosreport/Output/Below.antt =====
-- Which files `getCommandOutput` opens, and what it returns.
use ovn_kubernetes_mcp.Files.Laws.{Ensures, Ensures-bind, Ensures-lift, Ensures-ask}
use ovn_kubernetes_mcp.Prelude.{
  ◌≡◌, refl, ap, sym, ◌∙◌, Bool, false, ◌||◌, List, [], ◌∷◌, ◌++◌, append-nil, arith, reject_if,
  Error, ok, keep,
}
use ovn_kubernetes_mcp.Text.{Text, codes, contains, split, split_by}
use ovn_kubernetes_mcp.Text.Paths.{clean, join_paths, rooted, walk, step_into}
use ovn_kubernetes_mcp.Text.Paths.Laws.{place, rooted-clean}
use ovn_kubernetes_mcp.Text.Paths.Below.{IsBelow}
use ovn_kubernetes_mcp.Text.Paths.Relative.{IsBelow-of_relative}
use ovn_kubernetes_mcp.Files.{
  Request, Answer, Stat, found, missing, unknown, Content, stat, open_file, read_all, leaf,
}
use ovn_kubernetes_mcp.Utils.Lines.{strip_empty_lines}
use ovn_kubernetes_mcp.Utils.HeadTail.{HeadTailParams}
use ovn_kubernetes_mcp.Utils.Pattern.{PatternParams, Regexp, pattern_test}
use ovn_kubernetes_mcp.Sosreport.Reports.{
  exists_or, validate_sosreport_path, validate_relative_path, read_lines, scan_lines,
}
use ovn_kubernetes_mcp.Sosreport.Output.{command_output, get_command_output}

-- Only looks at files and reads, the latter below the directory.
abbrev pub ReadsBelow : Text → Request → Type 0
ReadsBelow directory (stat path) = Unit
ReadsBelow directory (open_file path) = IsBelow directory path
ReadsBelow directory (read_all path) = IsBelow directory path
ReadsBelow directory r = ⊥

abbrev pub Always : (r : Request) → Answer r → Type 0
Always r a = Unit

IsBelow-nothing : (path : Text) → IsBelow [] path
IsBelow-nothing path =
    let root : place [] ≡ [] = unfold place walk step_into split split_by in refl in
    (place path, sym (append-nil (place path)) ∙ ap (λ (l : List Text). place path ++ l) (sym root))

relative-IsBelow :
    (directory path : Text)
    → rooted path ≡ false
    → contains (clean path) (codes "..") ≡ false
    → IsBelow directory (join_paths (directory ∷ path ∷ []))
relative-IsBelow [] path r h = IsBelow-nothing _
relative-IsBelow (c ∷ s) path r h = IsBelow-of_relative c s path r h

neither :
    (a b : Bool) (e : Error) {u : Unit {0}}
    → reject_if (a || b) e ≡ ok u
    → (a ≡ false) × (b ≡ false)
neither a b e h = ground arith

-- An accepted relative path leads to something below every directory that it is joined to.
pub validate_relative_path-IsBelow :
    (directory path : Text)
    → validate_relative_path path ≡ ok tt
    → IsBelow directory (join_paths (directory ∷ path ∷ []))
unfolding validate_relative_path
validate_relative_path-IsBelow directory path h =
    let (up, root) = neither _ _ _ h in
    relative-IsBelow directory path (sym (rooted-clean path) ∙ root) up

exists-Ensures :
    (P : Request → Type 0) (e : Error) (s : Stat)
    → Ensures Always P (λ _. Unit) (leaf (exists_or e s))
exists-Ensures P e (found d) = tt
exists-Ensures P e (missing x) = tt
exists-Ensures P e (unknown x) = tt

module _ (compile : Regexp) (quote : Text → Text) (sosreport_path relative_filepath : Text)
    (p : PatternParams) (head_tail : HeadTailParams) where
  -- What is made of the lines of a content that pass the test of the pattern.
  abbrev pub IsOutput : Text → Type 0
  IsOutput output =
      (content : Content) × (lines : List Text) × (test : Text → Bool) × (scan_lines content
        ≡ ok lines)
      × (pattern_test compile p ≡ ok test)
      × (output ≡ command_output quote p head_tail (keep test (strip_empty_lines lines)))

  validated :
      Ensures Always
        (ReadsBelow sosreport_path)
        (λ _. Unit)
        (validate_sosreport_path sosreport_path)
  unfolding validate_sosreport_path
  validated = Ensures-ask Always _ _ _ _ _ tt λ a _. Ensures-lift Always _ _ _ _ λ _ _.
      Ensures-ask Always _ _ _ _ _ tt λ b _.
        Ensures-lift Always _ _ _ _
          λ _ _. (tt, λ c _. exists-Ensures (ReadsBelow sosreport_path) _ c)

  -- Whatever the answers, the tool for command outputs changes nothing, opens and reads files below
  -- the sosreport only, and returns what is made of the lines of some content that pass the
  -- pattern.
  pub get_command_output-IsOutput :
      Ensures Always
        (ReadsBelow sosreport_path)
        IsOutput
        (get_command_output compile quote sosreport_path relative_filepath p head_tail)
  unfolding get_command_output read_lines
  get_command_output-IsOutput =
      Ensures-bind Always _ (λ _. Unit) _ _ _ validated
        λ _ _. Ensures-lift Always _ _ _ _ λ u valid.
          let below = validate_relative_path-IsBelow sosreport_path relative_filepath valid in
          Ensures-ask Always _ _ _ _ _ tt λ a _. Ensures-lift Always _ _ _ _ λ _ _.
            Ensures-ask Always _ _ _ _ _ below λ b _. Ensures-lift Always _ _ _ _ λ _ _.
              Ensures-lift Always _ _ _ _ λ test compiled.
                Ensures-ask Always _ _ _ _ _ below λ content _.
                  Ensures-lift Always _ _ _ _
                    λ lines scanned. (content, lines, test, scanned, compiled, refl)
