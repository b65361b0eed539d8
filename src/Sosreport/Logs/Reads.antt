-- ===== src/Sosreport/Logs/Reads.antt =====
-- Which file the log tool reads, and what it returns.
use ovn_kubernetes_mcp.Prelude.{
  ◌≡◌, refl, ap, ◌∙◌, ◌⊎◌, inl, inr, List, [], ◌∷◌, ◌++◌, some, Any, arith, Bool-cases,
  Option-cases, is_empty, Result, ok, err,
}
use ovn_kubernetes_mcp.Text.{Text, codes, trim_prefix, has_suffix}
use ovn_kubernetes_mcp.Text.Dict.{lookup}
use ovn_kubernetes_mcp.Text.Paths.{join_paths, base}
use ovn_kubernetes_mcp.Files.{Request, open_file, gunzip, read_file, read_all}
use ovn_kubernetes_mcp.Files.Laws.{
  Ensures, Ensures-bind, Ensures-lift, Ensures-ask, Ensures-wrap, Satisfies,
}
use ovn_kubernetes_mcp.Utils.HeadTail.{HeadTailParams}
use ovn_kubernetes_mcp.Utils.Pattern.{PatternParams, Regexp}
use ovn_kubernetes_mcp.Sosreport.Reports.{
  Manifest, PluginDetail, manifest_path, load_manifest, read_lines,
}
use ovn_kubernetes_mcp.Sosreport.Output.Below.{Always}
use ovn_kubernetes_mcp.Sosreport.Logs.{
  matches_container_log_file, first_copied, first_log, gunzipped, search_in_file, read_log,
  read_plugin, get_pod_logs,
}
use ovn_kubernetes_mcp.Sosreport.Logs.Names.{IsLogName, matches_container_log_file_iff}

-- A path whose last element names a log of the container.
abbrev pub NamesLog : Text → Text → Text → Text → Type 0
NamesLog namespace name container path =
    (file : Text) × ((base path ≡ file) ⊎ (base path ≡ file ++ codes ".gz"))
    × IsLogName namespace name container file

first_copied-NamesLog :
    (namespace name container : Text) (paths : List Text) {path : Text}
    → first_copied namespace name container paths ≡ some path
    → Any (λ q. q ≡ path) paths × NamesLog namespace name container path
unfolding first_copied
first_copied-NamesLog namespace name container [] h = cc
first_copied-NamesLog namespace name container (p ∷ ps) {path} h =
    elim (Bool-cases (matches_container_log_file p namespace name container)) [
      | inl e ↦
          let same : p ≡ path = ground (arith, rw (e, first_copied) at h) in
          (inl same, rw (← same) ((matches_container_log_file_iff p namespace name container).0 e))
      | inr e ↦
          let (there, named) =
            first_copied-NamesLog namespace name container ps (rw (e, first_copied) at h) in
          (inr there, named)
    ]

first_log-NamesLog :
    (namespace name container : Text) (files : List (List Text)) {path : Text}
    → first_log namespace name container files ≡ some path
    → Any (λ copied. Any (λ q. q ≡ path) copied) files × NamesLog namespace name container path
unfolding first_log
first_log-NamesLog namespace name container [] h = cc
first_log-NamesLog namespace name container (c ∷ cs) {path} h =
    elim (Option-cases (first_copied namespace name container c)) [
      | inl e ↦
          let (there, named) =
            first_log-NamesLog namespace name container cs (rw (e, first_log) at h) in
          (inr there, named)
      | inr (p, e) ↦
          let same : p ≡ path = ground (arith, rw (e, first_log) at h) in
          let (there, named) =
            first_copied-NamesLog namespace name container c (e ∙ ap (λ (q : Text). some q) same) in
          (inl there, named)
    ]

module _ (unmarshal : Text → Result Manifest) (sosreport_path namespace name container : Text) where
  -- The place of a log that some manifest lists among the files of its container logs.
  abbrev pub IsLogPlace : Text → Type 0
  IsLogPlace path =
      (log_path : Text) × (path
        ≡ join_paths (sosreport_path ∷ trim_prefix log_path (codes "host/") ∷ []))
      × NamesLog namespace name container log_path
      × (text : Text) × (manifest : Manifest) × (unmarshal text ≡ ok manifest)
      × (plugin : PluginDetail) × (lookup (codes "container_log") manifest ≡ some plugin)
      × Any (λ copied. Any (λ q. q ≡ log_path) copied) plugin.files

  -- Reads of the manifest and of such logs.
  abbrev pub ReadsLog : Request → Type 0
  ReadsLog (read_file path) = path ≡ manifest_path sosreport_path
  ReadsLog (open_file path) = IsLogPlace path
  ReadsLog (gunzip path) = IsLogPlace path
  ReadsLog (read_all path) = IsLogPlace path
  ReadsLog r = ⊥

  module _ (compile : Regexp) (quote : Text → Text) (p : PatternParams)
      (head_tail : HeadTailParams) where
    any_result : {A : Type 0} (r : Result A) → Satisfies (λ _. Unit) r
    any_result (ok a) = tt
    any_result (err e) = tt

    gunzipped-Reads :
        (path : Text) → IsLogPlace path → Ensures Always ReadsLog (λ _. Unit) (gunzipped path)
    gunzipped-Reads path h = elim (Bool-cases (has_suffix path (codes ".gz"))) [
      | inl e ↦ rw e (h, λ a _. Ensures-wrap Always ReadsLog (λ _. Unit) _ [] a (any_result a))
      | inr e ↦ rw e tt
    ]

    search_in_file-Reads :
        (path : Text)
        → IsLogPlace path
        → Ensures Always ReadsLog (λ _. Unit) (search_in_file compile path p)
    unfolding search_in_file read_lines
    search_in_file-Reads path h = Ensures-ask Always _ _ _ _ _ h λ a _.
        Ensures-lift Always _ _ _ _ λ _ _.
          Ensures-bind Always _ (λ _. Unit) _ _ _ (gunzipped-Reads path h)
            λ _ _. Ensures-lift Always _ _ _ _ λ test _.
              Ensures-ask Always _ _ _ _ _ h λ c _. Ensures-lift Always _ _ _ _ λ lines _. tt

    Parsed : Manifest → Type 0
    Parsed manifest = (text : Text) × (unmarshal text ≡ ok manifest)

    Parsed-from : (text : Text) (r : Result Manifest) → unmarshal text ≡ r → Satisfies Parsed r
    unfolding Parsed
    Parsed-from text (ok m) e = (text, e)
    Parsed-from text (err x) e = tt

    manifest-Reads : Ensures Always ReadsLog Parsed (load_manifest unmarshal sosreport_path)
    unfolding load_manifest
    manifest-Reads = Ensures-ask Always _ _ _ _ _ refl λ a _. Ensures-lift Always _ _ _ _ λ text _.
        Ensures-wrap Always ReadsLog Parsed _ [] (unmarshal text) (Parsed-from text _ refl)

    log-Reads :
        (manifest : Manifest) (plugin : PluginDetail)
        → Parsed manifest
        → lookup (codes "container_log") manifest ≡ some plugin
        → Ensures Always ReadsLog
            (λ _. Unit)
            (read_log compile quote namespace name container p head_tail sosreport_path
              (first_log namespace name container plugin.files))
    unfolding Parsed
    log-Reads manifest plugin (text, parsed) listed =
        elim (Option-cases (first_log namespace name container plugin.files)) [
          | inl e ↦ rw e tt
          | inr (log_path, e) ↦
              let (there, named) = first_log-NamesLog namespace name container plugin.files e in
              rw e (
                Ensures-bind Always ReadsLog (λ _. Unit) (λ _. Unit) _ _
                  (search_in_file-Reads _
                    (log_path, refl, named, text, manifest, parsed, plugin, listed, there))
                  λ _ _. tt)
        ]

    plugin-Reads :
        (manifest : Manifest)
        → Parsed manifest
        → Ensures Always ReadsLog
            (λ _. Unit)
            (read_plugin compile quote namespace name container p head_tail sosreport_path
              (lookup (codes "container_log") manifest))
    plugin-Reads manifest parsed = elim (Option-cases (lookup (codes "container_log") manifest)) [
      | inl e ↦ rw e tt
      | inr (plugin, e) ↦ elim (Bool-cases (is_empty plugin.files)) [
        | inl f ↦ rw (e, f) tt
        | inr f ↦ rw (e, f) (log-Reads manifest plugin parsed e)
      ]
    ]

    -- Whatever the answers, the log tool changes nothing and reads the manifest and at most such files as
    -- the manifest lists for the container logs under the name of a log of the pod and the container that
    -- is asked for.
    pub get_pod_logs-ReadsLog :
        Ensures Always ReadsLog
          (λ _. Unit)
          (get_pod_logs compile quote namespace name container p head_tail unmarshal sosreport_path)
    unfolding get_pod_logs
    get_pod_logs-ReadsLog = Ensures-lift Always _ _ _ _ λ _ _.
        Ensures-lift Always _ _ _ _
          λ _ _. Ensures-bind Always ReadsLog Parsed (λ _. Unit) _ _ manifest-Reads plugin-Reads
