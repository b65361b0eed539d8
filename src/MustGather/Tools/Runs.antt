-- ===== src/MustGather/Tools/Runs.antt =====
-- Which commands the handlers of the must-gather tools run.
use ovn_kubernetes_mcp.Prelude.{
  ◌≡◌, refl, ap, ◌⊎◌, inl, inr, Bool, List, [], ◌∷◌, keep, Result, ok, err,
}
use ovn_kubernetes_mcp.Text.{Text, codes, split}
use ovn_kubernetes_mcp.Exec.{Context}
use ovn_kubernetes_mcp.Files.{Request, stat, read_dir, run_command, leaf}
use ovn_kubernetes_mcp.Files.Laws.{Ensures, Ensures-bind, Ensures-lift}
use ovn_kubernetes_mcp.Utils.Lines.{newline, strip_empty_lines}
use ovn_kubernetes_mcp.Utils.HeadTail.{HeadTailParams, apply}
use ovn_kubernetes_mcp.Utils.Pattern.{PatternParams, Regexp, pattern_test}
use ovn_kubernetes_mcp.Kubernetes.Output.{JsonPathParser}
use ovn_kubernetes_mcp.MustGather.Omc.{Session}
use ovn_kubernetes_mcp.MustGather.Omc.Laws.{
  IsGet, IsList, IsLogs, get_resource-IsGet, list_resources-IsList, get_pod_logs-IsLogs,
}
use ovn_kubernetes_mcp.MustGather.Path.{run_session}
use ovn_kubernetes_mcp.MustGather.OvsdbTool.Confined.{IsFair}
use ovn_kubernetes_mcp.MustGather.OvsdbTool.Logs.{run_session-Looks}
use ovn_kubernetes_mcp.MustGather.Tools.{get_resource_tool, list_resources_tool, pod_logs_tool}

-- Looks at files, and `omc` commands: the selection of the must-gather and the command of a session.
abbrev pub RunsOmc : Context → Text → Text → (Session → Type 0) → Request → Type 0
RunsOmc ctx omc path IsSession (stat p) = Unit
RunsOmc ctx omc path IsSession (read_dir p) = Unit
RunsOmc ctx omc path IsSession (run_command c command args) =
    (c ≡ ctx)
    × (command ≡ omc)
    × ((args ≡ codes "use" ∷ path ∷ []) ⊎ ((s : Session) × IsSession s × (args ≡ s.args)))
RunsOmc ctx omc path IsSession r = ⊥

session-Runs :
    (ctx : Context) (omc path : Text) (IsSession : Session → Type 0) (s : Session)
    → s.path ≡ path
    → IsSession s
    → Ensures IsFair (RunsOmc ctx omc path IsSession) (λ _. Unit) (run_session ctx omc s)
session-Runs ctx omc path IsSession s same is =
    run_session-Looks (RunsOmc ctx omc path IsSession) (λ _. tt) (λ _. tt) ctx omc s
      (refl, refl, inl (ap (λ (p : Text). codes "use" ∷ p ∷ []) same))
      (refl, refl, inr (s, is, refl))

result-Runs :
    (P : Request → Type 0) {A : Type 0} (r : Result A) → Ensures IsFair P (λ _. Unit) (leaf r)
result-Runs P (ok t) = tt
result-Runs P (err e) = tt

module _ (parse : JsonPathParser) (compile : Regexp) (ctx : Context) (omc path : Text) where
  IsGet-Runs :
      (kind namespace name output_type : Text)
      → Ensures IsFair
          (RunsOmc ctx omc path (IsGet path kind namespace name output_type))
          (λ _. Unit)
          (get_resource_tool parse compile ctx omc path kind namespace name output_type)
  unfolding get_resource_tool
  IsGet-Runs kind namespace name output_type = Ensures-lift IsFair _ _ _ _ λ _ _.
      Ensures-lift IsFair _ _ _ _ λ s h.
        let is = get_resource-IsGet path kind namespace name output_type s h in
        Ensures-bind IsFair _ (λ _. Unit) _ _ _
          (session-Runs ctx omc path (IsGet path kind namespace name output_type) s is.same_path is)
          λ o _. result-Runs (RunsOmc ctx omc path (IsGet path kind namespace name output_type)) _

  IsList-Runs :
      (kind namespace label_selector output_type : Text)
      → Ensures IsFair
          (RunsOmc ctx omc path (IsList path kind namespace label_selector output_type))
          (λ _. Unit)
          (list_resources_tool parse compile ctx omc path kind namespace label_selector output_type)
  unfolding list_resources_tool
  IsList-Runs kind namespace label_selector output_type = Ensures-lift IsFair _ _ _ _ λ _ _.
      Ensures-lift IsFair _ _ _ _ λ s h.
        let is = list_resources-IsList path kind namespace label_selector output_type s h in
        Ensures-bind IsFair _ (λ _. Unit) _ _ _
          (session-Runs ctx omc path (IsList path kind namespace label_selector output_type) s
            is.same_path is)
          λ o _.
            result-Runs
              (RunsOmc ctx omc path (IsList path kind namespace label_selector output_type)) _

  -- The lines of some output that pass the pattern, cut by head and tail.
  abbrev pub IsLogLines : PatternParams → HeadTailParams → List Text → Type 0
  IsLogLines p head_tail lines =
      (output : Text) × (test : Text → Bool) × (pattern_test compile p ≡ ok test)
      × (lines ≡ apply head_tail (keep test (strip_empty_lines (split output newline))) 100)

  IsLogs-Runs :
      (namespace name container : Text) (previous rotated : Bool) (p : PatternParams)
      (head_tail : HeadTailParams)
      → Ensures IsFair
          (RunsOmc ctx omc path (IsLogs path namespace name container previous rotated))
          (IsLogLines p head_tail)
          (pod_logs_tool parse compile ctx omc path namespace name container previous rotated p
            head_tail)
  unfolding pod_logs_tool
  IsLogs-Runs namespace name container previous rotated p head_tail =
      Ensures-lift IsFair _ _ _ _ λ _ _. Ensures-lift IsFair _ _ _ _ λ test compiled.
        Ensures-lift IsFair _ _ _ _ λ s h.
          let is = get_pod_logs-IsLogs path namespace name container previous rotated s h in
          Ensures-bind IsFair _ (λ _. Unit) _ _ _
            (session-Runs ctx omc path (IsLogs path namespace name container previous rotated) s
              is.same_path is)
            λ o _. Ensures-lift IsFair _ _ _ _ λ output _. (output, test, compiled, refl)

  -- Whatever the parameters and the answers, the tools for a resource, for resources and for pod
  -- logs look at files and run `omc` only, as `omc use PATH` for the must-gather of the request and
  -- as the one command of the tool, with the kinds, names and namespaces of the request in their
  -- places and no option among them; the logs are lines of some output that pass the pattern, cut
  -- by head and tail. It is taken that the entries of a directory have plain names, and that a
  -- temporary file is created in the directory that is asked for.
  pub tools-RunsOmc :
      (kind namespace name container label_selector output_type : Text) (previous rotated : Bool)
      (p : PatternParams) (head_tail : HeadTailParams)
      → Ensures IsFair
          (RunsOmc ctx omc path (IsGet path kind namespace name output_type))
          (λ _. Unit)
          (get_resource_tool parse compile ctx omc path kind namespace name output_type)
        × Ensures IsFair
            (RunsOmc ctx omc path (IsList path kind namespace label_selector output_type))
            (λ _. Unit)
            (list_resources_tool parse compile ctx omc path kind namespace label_selector
              output_type)
        × Ensures IsFair
            (RunsOmc ctx omc path (IsLogs path namespace name container previous rotated))
            (IsLogLines p head_tail)
            (pod_logs_tool parse compile ctx omc path namespace name container previous rotated p
              head_tail)
  tools-RunsOmc kind namespace name container label_selector output_type previous rotated p
        head_tail =
      (
        IsGet-Runs kind namespace name output_type,
        IsList-Runs kind namespace label_selector output_type,
        IsLogs-Runs namespace name container previous rotated p head_tail,
      )
