-- ===== src/MustGather/OvsdbTool/Confined.antt =====
-- Extracting the databases writes below the network logs only, whatever the archive holds.
use ovn_kubernetes_mcp.Text.Joins.{Lacks}
use ovn_kubernetes_mcp.Prelude.{
  String, Error, ◌≡◌, refl, ◌⊎◌, inl, inr, Bool, true, false, not, List, [], ◌∷◌, All, arith,
  reject_if, Result, ok, err,
}
use ovn_kubernetes_mcp.Text.{Text, codes}
use ovn_kubernetes_mcp.Text.Paths.{slash, dir, join_paths, rooted}
use ovn_kubernetes_mcp.Text.Paths.Below.{IsBelow, IsBelow-of_prefix}
use ovn_kubernetes_mcp.Text.Paths.Names.{IsEntryName, rooted-join_paths, place-join_name}
use ovn_kubernetes_mcp.Files.{
  Request, Answer, Stat, found, missing, unknown, DirEntry, TypeFlag, type_dir, type_reg,
  type_other, Archive, eof, broken, entry, read_dir, create_temp, remove, remove_all, mkdir_all,
  create_file, copy_entry, run_command, leaf, ask, Program, ◌>>=◌, wrapped,
}
use ovn_kubernetes_mcp.Files.Laws.{
  Ensures, Ensures-bind, Ensures-lift, Ensures-ask, Ensures-wrap_all,
}
use ovn_kubernetes_mcp.MustGather.OvsdbTool.{
  is_writable, ovnk_database_store, leads_inside, extract_directory, extract_file, extract_entry,
  extract_entries, extract_archive, extract_unless_there, extract_below,
}

-- What the operating system documents: the entries of a directory have plain names, and a temporary
-- file is created in the directory that is asked for.
abbrev pub IsFair : (r : Request) → Answer r → Type 0
IsFair (read_dir path) (ok entries) = All (λ (e : DirEntry). IsEntryName e.name) entries
IsFair (create_temp directory pattern) (ok path) = IsBelow directory path
IsFair r a = Unit

-- No command, and no write but below the directory. A directory that is made may also be the one that
-- holds a path below it.
abbrev pub Confined : Text → Request → Type 0
Confined directory (create_temp path pattern) = IsBelow directory path
Confined directory (remove path) = IsBelow directory path
Confined directory (remove_all path) = IsBelow directory path
Confined directory (mkdir_all path) =
    IsBelow directory path ⊎ ((inner : Text) × (path ≡ dir inner) × IsBelow directory inner)
Confined directory (create_file path) = IsBelow directory path
Confined directory (copy_entry path) = IsBelow directory path
Confined directory (run_command ctx command args) = ⊥
Confined directory r = Unit

accepted : (b : Bool) (e : Error) {u : Unit {0}} → reject_if (not b) e ≡ ok u → b ≡ true
accepted true e h = refl
accepted false e h = cc

lacks : Lacks slash ovnk_database_store
lacks = ground arith

module _ (directory : Text) (root : rooted directory ≡ true) where
  -- Nothing but confined requests.
  abbrev pub Stays : {A : Type 0} → Program A → Type 0
  Stays = Ensures IsFair (Confined directory) (λ _. Unit)

  wrapped-Stays :
      {A : Type 0} (format : String) (args : List Text) (r : Result A)
      → Stays (wrapped format args r)
  wrapped-Stays format args (ok a) = tt
  wrapped-Stays format args (err e) = tt

  -- What the guard lets through lies below the directory.
  guarded :
      (name : Text)
      → leads_inside directory (join_paths (directory ∷ name ∷ [])) ≡ true
      → IsBelow directory (join_paths (directory ∷ name ∷ []))
  guarded name h =
      IsBelow-of_prefix directory (join_paths (directory ∷ name ∷ [])) root
        (rooted-join_paths directory (name ∷ []) root) h

  extract_directory-Stays : (name : Text) → Stays (extract_directory directory name)
  unfolding extract_directory
  extract_directory-Stays name =
      Ensures-lift IsFair _ _ _ _
        λ _ h. (inl (guarded name (accepted _ _ h)), λ a fair. wrapped-Stays _ _ a)

  extract_file-Stays : (name : Text) → Stays (extract_file directory name)
  unfolding extract_file
  extract_file-Stays name = Ensures-lift IsFair _ _ _ _ λ _ h.
      let below = guarded name (accepted _ _ h) in
      Ensures-ask IsFair _ _ _ _ _ (inr (_, refl, below)) λ a fair.
        Ensures-lift IsFair _ _ _ _ λ _ h'.
          Ensures-ask IsFair _ _ _ _ _ below
            λ b fair'. Ensures-lift IsFair _ _ _ _ λ _ h''. (below, λ c fair''. wrapped-Stays _ _ c)

  extract_entry-Stays : (flag : TypeFlag) (name : Text) → Stays (extract_entry directory flag name)
  unfolding extract_entry
  extract_entry-Stays type_dir name = extract_directory-Stays name
  extract_entry-Stays type_reg name = Ensures-wrap_all IsFair _ _ _ _ _ (extract_file-Stays name)
  extract_entry-Stays type_other name = tt

  -- Whatever an archive holds, its extraction is confined.
  pub extract_entries-Stays : (a : Archive) → Stays (extract_entries directory a)
  unfolding extract_entries
  extract_entries-Stays eof = tt
  extract_entries-Stays (broken e) = tt
  extract_entries-Stays (entry h rest) =
      Ensures-bind IsFair _ _ _ _ _ (extract_entry-Stays h.type_flag h.name)
        λ _ _. extract_entries-Stays rest

  extract_archive-Stays : Stays (extract_archive directory)
  unfolding extract_archive
  extract_archive-Stays = Ensures-ask IsFair _ _ _ _ _ tt λ a _. Ensures-lift IsFair _ _ _ _ λ _ _.
      Ensures-ask IsFair _ _ _ _ _ tt λ b _. Ensures-lift IsFair _ _ _ _ λ _ _.
        Ensures-ask IsFair _ _ _ _ _ tt
          λ c _. Ensures-lift IsFair _ _ _ _ λ archive _. extract_entries-Stays archive

  store-IsBelow : IsBelow directory (join_paths (directory ∷ ovnk_database_store ∷ []))
  store-IsBelow = (
    ovnk_database_store ∷ [],
    place-join_name directory ovnk_database_store root ((λ e. cc), (λ e. cc), (λ e. cc), lacks),
  )

  extract_unless_there-Stays :
      (s : Stat)
      → Stays (extract_unless_there directory (join_paths (directory ∷ ovnk_database_store ∷ [])) s)
  unfolding extract_unless_there
  extract_unless_there-Stays (found true) = tt
  extract_unless_there-Stays (found false) =
      Ensures-ask IsFair _ _ _ _ _ store-IsBelow
        λ a _. Ensures-lift IsFair _ _ _ _ λ _ _. extract_archive-Stays
  extract_unless_there-Stays (missing e) = extract_archive-Stays
  extract_unless_there-Stays (unknown e) = extract_archive-Stays

  made_and_removed :
      (a : Result Text)
      → IsFair (create_temp directory (codes "tmpfile")) a
      → Stays (
          wrapped "failed to create temporary file: %w" [] a >>= λ name.
          ask (remove name) (λ _. leaf (ok true)))
  unfolding ◌>>=◌
  made_and_removed (ok name) below = (below, λ b _. tt)
  made_and_removed (err e) _ = tt

  is_writable-Stays : Stays (is_writable directory)
  unfolding is_writable
  is_writable-Stays = Ensures-ask IsFair _ _ _ _ _ ([], refl) made_and_removed

  -- The extraction is confined, and returns the path of the store.
  pub extract_below-Stays :
      Ensures IsFair
        (Confined directory)
        (λ path. path ≡ join_paths (directory ∷ ovnk_database_store ∷ []))
        (extract_below directory)
  unfolding extract_below
  extract_below-Stays =
      Ensures-bind IsFair _ _ _ _ _ (Ensures-wrap_all IsFair _ _ _ _ _ is_writable-Stays) λ w _.
        Ensures-lift IsFair _ _ _ _ λ _ _. Ensures-ask IsFair _ _ _ _ _ tt λ s _.
          Ensures-lift IsFair _ _ _ _ λ s' _.
            Ensures-bind IsFair _ (λ _. Unit) _ _ _ (extract_unless_there-Stays s') λ _ _. refl
