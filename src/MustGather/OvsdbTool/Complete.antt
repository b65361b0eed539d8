-- ===== src/MustGather/OvsdbTool/Complete.antt =====
-- A whole archive is extracted as a whole.
use ovn_kubernetes_mcp.Prelude.{Bool, ◌≡◌, refl, ◌∙◌, true, List, [], ◌∷◌, ◌++◌, ok}
use ovn_kubernetes_mcp.Text.{Text, codes}
use ovn_kubernetes_mcp.Text.Paths.{dir, join_paths}
use ovn_kubernetes_mcp.Files.{
  Request, Answer, found, TypeFlag, type_dir, type_reg, type_other, Archive, eof, broken, entry,
  stat, open_file, untar, mkdir_all, create_file, copy_entry, ◌>>=◌, wrap_all, run, requests,
}
use ovn_kubernetes_mcp.Files.Laws.{run->>=, requests->>=}
use ovn_kubernetes_mcp.MustGather.OvsdbTool.{
  ovnk_database_store, leads_inside, extract_directory, extract_file, extract_entry,
  extract_entries, extract_archive,
}

-- What is written for an entry: the directory, or the directory of the file, the file and its content.
abbrev pub entry_requests : Text → TypeFlag → List Request
entry_requests dest type_dir = mkdir_all dest ∷ []
entry_requests dest type_reg = mkdir_all (dir dest) ∷ create_file dest ∷ copy_entry dest ∷ []
entry_requests dest type_other = []

abbrev pub archive_requests : Text → Archive → List Request
archive_requests directory eof = []
archive_requests directory (broken e) = []
archive_requests directory (entry h rest) =
    entry_requests (join_paths (directory ∷ h.name ∷ [])) h.type_flag
    ++ archive_requests directory rest

-- A directory or a regular file whose name leads inside.
abbrev pub IsExtractable : Text → TypeFlag → Text → Type 0
IsExtractable directory type_other name = ⊥
IsExtractable directory type_dir name =
    leads_inside directory (join_paths (directory ∷ name ∷ [])) ≡ true
IsExtractable directory type_reg name =
    leads_inside directory (join_paths (directory ∷ name ∷ [])) ≡ true

-- The archive can be read to its end, and every entry can be extracted.
abbrev pub IsWhole : Text → Archive → Type 0
IsWhole directory eof = Unit
IsWhole directory (broken e) = ⊥
IsWhole directory (entry h rest) =
    IsExtractable directory h.type_flag h.name × IsWhole directory rest

-- No write fails.
abbrev pub IsWriting : ((r : Request) → Answer r) → Type 0
IsWriting answer =
    ((path : Text) → answer (mkdir_all path) ≡ ok tt)
    × ((path : Text) → answer (create_file path) ≡ ok tt)
    × ((path : Text) → answer (copy_entry path) ≡ ok tt)

abbrev pub archive_path : Text → Text
archive_path directory = join_paths (directory ∷ (ovnk_database_store ++ codes ".tar.gz") ∷ [])

module _ (answer : (r : Request) → Answer r) (directory : Text) (writes : IsWriting answer) where
  extracts_entry :
      (flag : TypeFlag) (name : Text)
      → IsExtractable directory flag name
      → (run answer (extract_entry directory flag name) ≡ ok tt)
        × (requests answer (extract_entry directory flag name)
            ≡ entry_requests (join_paths (directory ∷ name ∷ [])) flag)
  unfolding extract_entry extract_directory extract_file run requests ◌>>=◌ wrap_all
  extracts_entry type_other name h = absurd h
  extracts_entry type_dir name h =
      let (makes, creates, copies) = writes in (rw h (rw (makes _, run) refl), rw h refl)
  extracts_entry type_reg name h =
      let (makes, creates, copies) = writes in
      (
        rw h (rw (makes _, run) (rw (creates _, run) (rw (copies _, run) refl))),
        rw h (rw (makes _, requests) (rw (creates _, requests) refl)),
      )

  extracts_entries :
      (archive : Archive)
      → IsWhole directory archive
      → (run answer (extract_entries directory archive) ≡ ok tt)
        × (requests answer (extract_entries directory archive) ≡ archive_requests directory archive)
  unfolding extract_entries run requests
  extracts_entries eof h = (refl, refl)
  extracts_entries (broken e) h = absurd h
  extracts_entries (entry header rest) (h, hs) =
      let (done, asked) = extracts_entry header.type_flag header.name h in
      let (all_done, all_asked) = extracts_entries rest hs in
      let one = extract_entry directory header.type_flag header.name in
      (
        run->>= answer one (λ _. extract_entries directory rest) done ∙ all_done,
        requests->>= answer one (λ _. extract_entries directory rest) done
            ∙ rw (asked, all_asked) refl,
      )

  -- Where no request fails and the archive is whole, that is, it can be read to its end and holds only
  -- directories and regular files with names that lead inside, the extraction succeeds, and what it
  -- asks for is the archive and then, entry by entry, the directory, or the file with its directory
  -- and its content.
  pub extract_archive-completes :
      (archive : Archive) (is_dir : Bool)
      → answer (stat (archive_path directory)) ≡ found is_dir
      → answer (open_file (archive_path directory)) ≡ ok tt
      → answer (untar (archive_path directory)) ≡ ok archive
      → IsWhole directory archive
      → (run answer (extract_archive directory) ≡ ok tt)
        × (requests answer (extract_archive directory)
            ≡ stat (archive_path directory)
              ∷ open_file (archive_path directory)
              ∷ untar (archive_path directory)
              ∷ archive_requests directory archive)
  unfolding extract_archive run requests ◌>>=◌
  extract_archive-completes archive is_dir there opened read whole =
      let (done, asked) = extracts_entries archive whole in
      (
        rw (there, run) (rw (opened, run) (rw (read, run) done)),
        rw (there, requests) (rw (opened, requests) (rw (read, requests) (rw asked refl))),
      )
