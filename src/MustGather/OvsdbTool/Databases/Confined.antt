-- ===== src/MustGather/OvsdbTool/Databases/Confined.antt =====
-- What listing the databases does to the must-gather, and what it returns.
use ovn_kubernetes_mcp.MustGather.OvsdbTool.Logs.{
  logs_of, run_session-Looks, wrapped-Ensures, get_network_logs_directory-IsLogs,
}
use ovn_kubernetes_mcp.Exec.{Context}
use ovn_kubernetes_mcp.MustGather.OvsdbTool.Confined.{extract_below-Stays, IsFair, Confined}
use ovn_kubernetes_mcp.Text.Paths.Names.{IsEntryName}
use ovn_kubernetes_mcp.MustGather.OvsdbTool.{
  extract_below, ovnk_database_store, extract_ovn_databases,
}
use ovn_kubernetes_mcp.MustGather.OvsdbTool.Databases.{
  list_southbound_databases, list_northbound_databases, list_ovn_databases,
  get_database_to_node_mapping, omc_list_resources, database_files, map_pods, DbInfo, Pod,
}
use ovn_kubernetes_mcp.Text.Paths.{join_paths}
use ovn_kubernetes_mcp.Files.{
  leaf, copy_entry, create_file, mkdir_all, remove_all, remove, create_temp, read_all, read_file,
  untar, gunzip, open_file, read_dir, stat, run_command, Request, Program, DirEntry,
}
use ovn_kubernetes_mcp.Files.Laws.{
  Ensures-mono, Ensures-mono_result, Ensures, Satisfies, Ensures-bind, Ensures-lift, Ensures-ask,
  Ensures-wrap_all,
}
use mathlib.Core.Path.{subst}
use ovn_kubernetes_mcp.Prelude.{
  ◌∙◌, sym, ap, wrap-eq-ok, ◌≡◌, refl, Bool, List, [], ◌∷◌, Result, ok, err, true, false,
}
use ovn_kubernetes_mcp.Text.{Text}

-- The requests of the tool: `omc` commands, and else no command and no write but below the network logs
-- of one directory of the must-gather.
abbrev pub IsListing : Text → Text → Request → Type 0
IsListing omc must_gather (run_command ctx command args) = command ≡ omc
IsListing omc must_gather (stat path) = Unit
IsListing omc must_gather (read_dir path) = Unit
IsListing omc must_gather (open_file path) = Unit
IsListing omc must_gather (gunzip path) = Unit
IsListing omc must_gather (untar path) = Unit
IsListing omc must_gather (read_file path) = Unit
IsListing omc must_gather (read_all path) = Unit
IsListing omc must_gather r =
    (name : Text) × IsEntryName name × Confined (logs_of must_gather name) r

module _ (omc must_gather : Text) where
  abbrev Lists : {A : Type 0} → (A → Type 0) → Program A → Type 0
  Lists = Ensures IsFair (IsListing omc must_gather)

  listing :
      (name : Text) (plain : IsEntryName name) (r : Request)
      → Confined (logs_of must_gather name) r
      → IsListing omc must_gather r
  listing name plain (run_command ctx command args) c = absurd c
  listing name plain (stat path) c = tt
  listing name plain (read_dir path) c = tt
  listing name plain (open_file path) c = tt
  listing name plain (gunzip path) c = tt
  listing name plain (untar path) c = tt
  listing name plain (read_file path) c = tt
  listing name plain (read_all path) c = tt
  listing name plain (create_temp path pattern) c = (name, plain, c)
  listing name plain (remove path) c = (name, plain, c)
  listing name plain (remove_all path) c = (name, plain, c)
  listing name plain (mkdir_all path) c = (name, plain, c)
  listing name plain (create_file path) c = (name, plain, c)
  listing name plain (copy_entry path) c = (name, plain, c)

  store_of : Lists (λ _. Unit) (extract_ovn_databases must_gather)
  unfolding extract_ovn_databases
  store_of =
      Ensures-bind IsFair _ _ _ _ _
        (Ensures-wrap_all IsFair _ _ _ _ _ (
          get_network_logs_directory-IsLogs (IsListing omc must_gather) (λ _. tt) (λ _. tt)
            must_gather))
        λ d (name, plain, same, root).
          Ensures-mono_result IsFair _ (λ path. path ≡ join_paths (d ∷ ovnk_database_store ∷ []))
            (λ _. Unit) (extract_below d) (λ _ _. tt)
            (Ensures-mono IsFair _ _ (λ path. path ≡ join_paths (d ∷ ovnk_database_store ∷ []))
              (extract_below d)
              (λ r c. listing name plain r (subst (λ (l : Text). Confined l r) same c))
              (extract_below-Stays d root))

  result-Lists : (r : Result Text) → Lists (λ _. Unit) (leaf r)
  result-Lists (ok t) = tt
  result-Lists (err e) = tt

  pods-Lists :
      (ctx : Context) (path kind namespace selector output : Text)
      → Lists (λ _. Unit) (omc_list_resources ctx omc path kind namespace selector output)
  unfolding omc_list_resources
  pods-Lists ctx path kind namespace selector output = Ensures-lift IsFair _ _ _ _ λ s _.
      Ensures-bind IsFair _ (λ _. Unit) _ _ _
        (run_session-Looks (IsListing omc must_gather) (λ _. tt) (λ _. tt) ctx omc s refl refl)
        λ o _. result-Lists _

  -- The files that are listed are those of some directory.
  abbrev IsFiles : Bool → List (Text × Text) → Type 0
  IsFiles n files = (entries : List DirEntry) × (files ≡ database_files n [] entries)

  IsFiles-listed : (n : Bool) → Lists (IsFiles n) (list_ovn_databases must_gather n)
  unfolding list_ovn_databases
  IsFiles-listed n =
      Ensures-bind IsFair _ (λ _. Unit) _ _ _ (Ensures-wrap_all IsFair _ _ _ _ _ store_of)
        λ path _.
          Ensures-ask IsFair _ _ _ _ _ tt
            λ a _. Ensures-lift IsFair _ _ _ _ λ entries _. (entries, refl)

  module _ (unmarshal_pods : Text → Result (List Pod))
      (marshal_infos : List DbInfo → Result Text) where
    -- The text of the pairs that the mapping holds for the entries of a directory and some pods.
    abbrev pub IsMapping : Bool → Text → Type 0
    IsMapping n result =
        (entries : List DirEntry) × (listed : Text) × (pods : List Pod) × (unmarshal_pods listed
          ≡ ok pods)
        × (marshal_infos (map_pods (database_files n [] entries) pods) ≡ ok result)

    marshalled :
        (n : Bool) (files : List (Text × Text)) (pods : List Pod) (entries : List DirEntry)
        (listed : Text)
        → files ≡ database_files n [] entries
        → unmarshal_pods listed ≡ ok pods
        → (r : Result Text) → marshal_infos (map_pods files pods) ≡ r
        → Satisfies (IsMapping n) r
    marshalled n files pods entries listed same u (ok t) e = (
      entries,
      listed,
      pods,
      u,
      ap (λ (f : List (Text × Text)). marshal_infos (map_pods f pods)) (sym same) ∙ e,
    )
    marshalled n files pods entries listed same u (err x) e = tt

    mapping-Lists :
        (ctx : Context) (n : Bool)
        → Lists
            (IsMapping n)
            (get_database_to_node_mapping unmarshal_pods marshal_infos ctx omc must_gather n)
    unfolding get_database_to_node_mapping
    mapping-Lists ctx n =
        Ensures-bind IsFair _ (IsFiles n) _ _ _
          (Ensures-wrap_all IsFair _ _ _ _ _ (IsFiles-listed n))
          λ files (entries, same). Ensures-lift IsFair _ _ _ _ λ _ _.
            Ensures-bind IsFair _ (λ _. Unit) _ _ _
              (Ensures-wrap_all IsFair _ _ _ _ _ (pods-Lists ctx must_gather _ _ _ _))
              λ listed _. Ensures-lift IsFair _ _ _ _ λ pods h.
                wrapped-Ensures (IsListing omc must_gather) (λ _. tt) (λ _. tt) (IsMapping n) _ _
                  (marshal_infos (map_pods files pods))
                  (marshalled n files pods entries listed same (wrap-eq-ok _ _ _ h)
                    (marshal_infos (map_pods files pods)) refl)

    -- The two tools: whatever the must-gather, its archive and the answers, they run `omc` only, write
    -- below the network logs of a directory of the must-gather only, and return the text of a mapping.
    -- It is taken that the entries of a directory have plain names, and that a temporary file is
    -- created in the directory that is asked for.
    pub list_databases-Lists :
        (ctx : Context)
        → Lists
            (IsMapping true)
            (list_northbound_databases unmarshal_pods marshal_infos ctx omc must_gather)
          × Lists
              (IsMapping false)
              (list_southbound_databases unmarshal_pods marshal_infos ctx omc must_gather)
    unfolding list_northbound_databases list_southbound_databases
    list_databases-Lists ctx = (
      Ensures-wrap_all IsFair _ _ _ _ _ (mapping-Lists ctx true),
      Ensures-wrap_all IsFair _ _ _ _ _ (mapping-Lists ctx false),
    )
