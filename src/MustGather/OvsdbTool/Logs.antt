-- ===== src/MustGather/OvsdbTool/Logs.antt =====
-- The directory of the network logs is found by reads only.
use ovn_kubernetes_mcp.Utils.Validate.Paths.{validate_path_iff}
use ovn_kubernetes_mcp.Utils.Validate.{validate_path}
use ovn_kubernetes_mcp.MustGather.Omc.Names.{of_ok}
use ovn_kubernetes_mcp.Exec.{Context}
use ovn_kubernetes_mcp.MustGather.Omc.{Session}
use ovn_kubernetes_mcp.MustGather.Path.{
  checked_outcome, use_must_gather, run_session, found_or, validate_must_gather_path,
}
use ovn_kubernetes_mcp.MustGather.OvsdbTool.Confined.{IsFair}
use ovn_kubernetes_mcp.Text.Paths.Names.{rooted-join_paths, IsEntryName}
use ovn_kubernetes_mcp.MustGather.OvsdbTool.{
  get_network_logs_directory, only_directory, network_logs_directory,
}
use ovn_kubernetes_mcp.Text.Paths.{rooted, join_paths}
use ovn_kubernetes_mcp.Files.{
  Outcome, run_command, unknown, missing, found, leaf, Stat, wrapped, read_dir, stat, Request,
  Program, DirEntry,
}
use ovn_kubernetes_mcp.Files.Laws.{
  Ensures, Satisfies, Ensures-bind, Ensures-lift, Ensures-ask, Ensures-wrap_all,
}
use ovn_kubernetes_mcp.Prelude.{
  Option-cases, arith, inr, inl, Bool-cases, String, none, All, Option, some, ◌≡◌, refl, List, [],
  ◌∷◌, Result, ok, err, true, false,
}
use ovn_kubernetes_mcp.Text.{codes, Text}

-- The directory of the network logs in a directory of the must-gather.
abbrev pub logs_of : Text → Text → Text
logs_of must_gather name = join_paths (must_gather ∷ name ∷ network_logs_directory ∷ [])

some-transport : (P : Text → Type 0) {a b : Text} → some a ≡ some b → P a → P b
some-transport P {a} {b} e p = let same : a ≡ b = cc in rw (← same) p

entry_of :
    (names : List Text) (seen : Option Text) (entries : List DirEntry) {found : Text}
    → ((d : Text) → seen ≡ some d → IsEntryName d)
    → All (λ (e : DirEntry). IsEntryName e.name) entries
    → only_directory names seen entries ≡ ok found
    → IsEntryName found
unfolding only_directory
entry_of names none [] k all h = cc
entry_of names (some d) [] k all h = of_ok IsEntryName h (k d refl)
entry_of names none (e ∷ es) k (plain, all) h = elim (Bool-cases e.is_dir) [
  | inl d ↦
      entry_of names (some e.name) es (λ d' q. some-transport IsEntryName q plain) all
        (rw (d, only_directory) at h)
  | inr d ↦ entry_of names none es k all (rw (d, only_directory) at h)
]
entry_of names (some d) (e ∷ es) k (plain, all) h = elim (Bool-cases e.is_dir) [
  | inl b ↦ absurd (ground arith)
  | inr b ↦ entry_of names (some d) es k all (rw (b, only_directory) at h)
]

-- Requests that include every look at a file or a directory.
module _ (P : Request → Type 0) (stats : (p : Text) → P (stat p))
    (reads : (p : Text) → P (read_dir p)) where
  abbrev Looks : {A : Type 0} → (A → Type 0) → Program A → Type 0
  Looks = Ensures IsFair P

  pub wrapped-Ensures :
      {B : Type 0} (Q : B → Type 0) (format : String) (args : List Text) (r : Result B)
      → Satisfies Q r
      → Looks Q (wrapped format args r)
  wrapped-Ensures Q format args (ok b) h = h
  wrapped-Ensures Q format args (err e) h = tt

  pub found_or-Ensures :
      (not_found failed : String) (path : Text) (s : Stat) (Q : Unit {0} → Type 0)
      → Q tt
      → Looks Q (leaf (found_or not_found failed path s))
  found_or-Ensures not_found failed path (found d) Q h = h
  found_or-Ensures not_found failed path (missing e) Q h = tt
  found_or-Ensures not_found failed path (unknown e) Q h = tt

  -- Checking any path reads only.
  pub validate_must_gather_path-reads :
      (path : Text) → Looks (λ _. Unit) (validate_must_gather_path path)
  unfolding validate_must_gather_path
  validate_must_gather_path-reads path = Ensures-lift IsFair _ _ _ _ λ u h.
      Ensures-ask IsFair _ _ _ _ _ (stats _) λ a _.
        Ensures-lift IsFair _ _ _ _ λ _ _. (stats _, λ s _. found_or-Ensures _ _ _ s (λ _. Unit) tt)

  outcome-Looks :
      (format : String) (o : Outcome) → Looks (λ _. Unit) (leaf (checked_outcome format o))
  outcome-Looks format o = elim (Option-cases o.error) [ inl e ↦ rw e tt | inr (x, e) ↦ rw e tt ]

  -- Apart from looks, a session makes two requests: the selection of its must-gather, and its command.
  pub run_session-Looks :
      (ctx : Context) (omc : Text) (s : Session)
      → P (run_command ctx omc (codes "use" ∷ s.path ∷ []))
      → P (run_command ctx omc s.args)
      → Looks (λ _. Unit) (run_session ctx omc s)
  unfolding run_session use_must_gather
  run_session-Looks ctx omc s chosen command =
      Ensures-bind IsFair _ (λ _. Unit) _ _ _
        (Ensures-wrap_all IsFair _ _ _ _ _ (
          Ensures-bind IsFair _ (λ _. Unit) _ _ _
            (Ensures-wrap_all IsFair _ _ _ _ _ (validate_must_gather_path-reads s.path))
            λ _ _. (chosen, λ o _. outcome-Looks _ o)))
        λ _ _. (command, λ o _. tt)

  module _ (must_gather : Text) where
    root_of_valid :
        {u : Unit {0}}
        → validate_path must_gather (codes "must gather path") false ≡ ok u
        → rooted must_gather ≡ true
    root_of_valid h = elim ((validate_path_iff must_gather (codes "must gather path") false).0 h) [
      | inl (e, f) ↦ cc
      | inr safe ↦ let (rest, e) = safe.absolute in rw e refl
    ]

    validated : Looks (λ _. rooted must_gather ≡ true) (validate_must_gather_path must_gather)
    unfolding validate_must_gather_path
    validated = Ensures-lift IsFair _ _ _ _ λ u h. Ensures-ask IsFair _ _ _ _ _ (stats _) λ a _.
        Ensures-lift IsFair _ _ _ _ λ _ _. (
          stats _,
          λ s _. found_or-Ensures _ _ _ s (λ _. rooted must_gather ≡ true) (root_of_valid h),
        )

    abbrev pub IsLogs : Text → Type 0
    IsLogs d = (name : Text) × IsEntryName name × (d ≡ logs_of must_gather name) × (rooted d ≡ true)

    listed_name :
        (a : Result (List DirEntry))
        → IsFair (read_dir must_gather) a
        → Satisfies (All (λ (e : DirEntry). IsEntryName e.name)) a
    listed_name (ok es) fair = fair
    listed_name (err e) fair = tt

    pub get_network_logs_directory-IsLogs : Looks IsLogs (get_network_logs_directory must_gather)
    unfolding get_network_logs_directory
    get_network_logs_directory-IsLogs =
        Ensures-bind IsFair _ _ _ _ _ (Ensures-wrap_all IsFair _ _ _ _ _ validated) λ _ root.
          Ensures-bind IsFair _ (All (λ (e : DirEntry). IsEntryName e.name)) _ _ _
            (reads _, λ a fair. wrapped-Ensures _ _ _ a (listed_name a fair))
            λ dirs plain. Ensures-lift IsFair _ _ _ _ λ name h.
              Ensures-ask IsFair _ _ _ _ _ (stats _) λ a _. Ensures-lift IsFair _ _ _ _ λ _ _. (
                name,
                entry_of _ none dirs (λ d q. cc) plain h,
                refl,
                rooted-join_paths must_gather (name ∷ network_logs_directory ∷ []) root,
              )
