-- ===== src/MustGather/OvsdbTool/Databases/FileNames.antt =====
-- How database files are listed under the names of pods.
use ovn_kubernetes_mcp.Files.{DirEntry}
use ovn_kubernetes_mcp.Text.Dict.{lookup-assign, lookup, assign}
use ovn_kubernetes_mcp.MustGather.OvsdbTool.Databases.{database_files, add_database, db_suffix}
use ovn_kubernetes_mcp.Prelude.{
  arith, not, if◌then◌else◌, ◌↔◌, Any, Option, inr, inl, false, Bool-cases, ◌⊎◌, ◌≢◌, List, Bool, ℕ,
  ◌≡◌, refl, sym, ap, ◌∙◌, true, [], ◌∷◌, ◌++◌, none, some,
}
use ovn_kubernetes_mcp.Text.{text_eq, codes, Text, has_suffix}
use ovn_kubernetes_mcp.Text.Laws.{text_eq_iff}
use ovn_kubernetes_mcp.Text.Paths.{split_last}
use ovn_kubernetes_mcp.Text.Paths.Elements.{split_last-append}
use ovn_kubernetes_mcp.Text.Suffixes.{has_suffix_sound, has_suffix-append}

suffix_split :
    (is_northbound : Bool) (pod : Text)
    → (behind : Text) × (split_last b'_' (pod ++ db_suffix is_northbound) ≡ some (pod, behind))
suffix_split true pod =
    (codes "nbdb", split_last-append b'_' pod (codes "nbdb") (refl, (refl, (refl, (refl, tt)))))
suffix_split false pod =
    (codes "sbdb", split_last-append b'_' pod (codes "sbdb") (refl, (refl, (refl, (refl, tt)))))

-- A file with the suffix behind the name of a pod is listed under that name, and no other is listed.
abbrev Adds : Bool → Text → List (Text × Text) → Type 0
Adds n name files =
    (c : ℕ) × (pod : Text) × (name ≡ (c ∷ pod) ++ db_suffix n)
    × (add_database n name (split_last b'_' name) files ≡ assign (c ∷ pod) name files)

abbrev Skips : Bool → Text → List (Text × Text) → Type 0
Skips n name files =
    ((pod : Text) → pod ≢ [] → name ≢ pod ++ db_suffix n)
    × (add_database n name (split_last b'_' name) files ≡ files)

unsuffixed :
    (n : Bool) (name : Text) (o : Option (Text × Text)) (files : List (Text × Text))
    → has_suffix name (db_suffix n) ≡ false
    → add_database n name o files ≡ files
unsuffixed n name none files h = refl
unsuffixed n name (some ([], behind)) files h = refl
unsuffixed n name (some (c ∷ pod, behind)) files h = rw h

before_of : Text → Option (Text × Text) → Text
before_of p none = p
before_of p (some (before, behind)) = before

suffix_injective : (n : Bool) (p q : Text) → p ++ db_suffix n ≡ q ++ db_suffix n → p ≡ q
unfolding before_of
suffix_injective n p q e =
    let (a, f) = suffix_split n p in
    let (b, g) = suffix_split n q in
    let h : split_last b'_' (p ++ db_suffix n) ≡ split_last b'_' (q ++ db_suffix n) =
      ap (split_last b'_') e in
    let same : some (p, a) ≡ some (q, b) = sym f ∙ h ∙ g in ap (before_of p) same

nonempty-cases : (t : Text) → (t ≡ []) ⊎ ((c : ℕ) × (s : Text) × (t ≡ c ∷ s))
nonempty-cases [] = inl refl
nonempty-cases (c ∷ s) = inr (c, s, refl)

suffixed :
    (n : Bool) (name r : Text) (files : List (Text × Text))
    → name ≡ r ++ db_suffix n
    → has_suffix name (db_suffix n) ≡ true
    → Adds n name files ⊎ Skips n name files
suffixed n name r files e h =
    let (behind, f) = suffix_split n r in
    let s : split_last b'_' name ≡ some (r, behind) = ap (split_last b'_') e ∙ f in
    elim (nonempty-cases r) [
      | inl nothing ↦ inr (
        λ pod full same. full (suffix_injective n pod r (sym same ∙ e) ∙ nothing),
        ap (λ (o : Option (Text × Text)). add_database n name o files) s
            ∙ ap (λ (t : Text). add_database n name (some (t, behind)) files) nothing,
      )
      | inr (c, pod, full) ↦ inl (
        c,
        pod,
        e ∙ ap (λ (t : Text). t ++ db_suffix n) full,
        ap (λ (o : Option (Text × Text)). add_database n name o files) s
            ∙ ap (λ (t : Text). add_database n name (some (t, behind)) files) full
            ∙ rw h,
      )
    ]

add-cases :
    (n : Bool) (name : Text) (files : List (Text × Text)) → Adds n name files ⊎ Skips n name files
add-cases n name files = elim (Bool-cases (has_suffix name (db_suffix n))) [
  | inl e ↦ let (r, f) = has_suffix_sound name (db_suffix n) e in suffixed n name r files f e
  | inr e ↦ inr (
    λ pod full same. ground (
      arith,
      ap (λ (t : Text). has_suffix t (db_suffix n)) same,
      has_suffix-append pod (db_suffix n),
    ),
    unsuffixed n name (split_last b'_' name) files e,
  )
]

-- A file of the directory that is listed under the name of a pod.
abbrev pub IsListed : Bool → List DirEntry → Text → Text → Type 0
IsListed n entries pod file =
    (file ≡ pod ++ db_suffix n)
    × (pod ≢ [])
    × Any (λ e. (e.is_dir ≡ false) × (e.name ≡ file)) entries

-- Every file of the map stands under the name of its pod.
abbrev Consistent : Bool → List (Text × Text) → Type 0
Consistent n files =
    (pod file : Text) → lookup pod files ≡ some file → (file ≡ pod ++ db_suffix n) × (pod ≢ [])

abbrev with_entry : Bool → List (Text × Text) → DirEntry → List (Text × Text)
with_entry n files e =
    if not e.is_dir then add_database n e.name (split_last b'_' e.name) files else files

assigned_iff :
    (n : Bool) (key name : Text) (files : List (Text × Text)) (pod file : Text)
    → key ≢ []
    → name ≡ key ++ db_suffix n
    → Consistent n files
    → (lookup pod (assign key name files) ≡ some file) ↔ (
        ((file ≡ pod ++ db_suffix n) × (pod ≢ []) × (false ≡ false) × (name ≡ file))
        ⊎ (lookup pod files ≡ some file))
assigned_iff n key name files pod file full e ok = elim (Bool-cases (text_eq key pod)) [
  | inl same ↦
      let k : key ≡ pod = (text_eq_iff key pod).0 same in
      let there : lookup pod (assign key name files) ≡ some name =
        lookup-assign key pod name files ∙ rw same in
      let named : name ≡ pod ++ db_suffix n = e ∙ ap (λ (t : Text). t ++ db_suffix n) k in
      (
        λ h. let f : name ≡ file = cc in inl (sym f ∙ named, (λ q. full (k ∙ q)), refl, f),
        λ h. elim h [
          | inl (a, b, _, f) ↦ there ∙ ap some f
          | inr g ↦ there ∙ ap some (named ∙ sym (ok pod file g).0)
        ],
      )
  | inr other ↦
      let there : lookup pod (assign key name files) ≡ lookup pod files =
        lookup-assign key pod name files ∙ rw other in
      (
        λ h. inr (sym there ∙ h),
        λ h. elim h [
          | inl (a, b, _, f) ↦
              let k : key ≡ pod = suffix_injective n key pod (sym e ∙ f ∙ a) in
              absurd (ground (arith, (text_eq_iff key pod).1 k))
          | inr g ↦ there ∙ g
        ],
      )
]

with_entry_iff :
    (n : Bool) (files : List (Text × Text)) (e : DirEntry)
    → Consistent n files
    → (pod file : Text)
    → (lookup pod (with_entry n files e) ≡ some file) ↔ (
        ((file ≡ pod ++ db_suffix n) × (pod ≢ []) × (e.is_dir ≡ false) × (e.name ≡ file))
        ⊎ (lookup pod files ≡ some file))
with_entry_iff n files e ok pod file = elim (Bool-cases e.is_dir) [
  | inl d ↦ rw d (λ h. inr h, λ h. elim h [ inl (a, b, c, f) ↦ cc | inr g ↦ g ])
  | inr d ↦ elim (add-cases n e.name files) [
    | inl (c, name, full, adds) ↦
        rw (d, adds) (assigned_iff n (c ∷ name) e.name files pod file (λ q. cc) full ok)
    | inr (other, skips) ↦
        rw (d, skips)
          (λ h. inr h, λ h. elim h [ inl (a, b, _, f) ↦ absurd (other pod b (f ∙ a)) | inr g ↦ g ])
  ]
]

with_entry-Consistent :
    (n : Bool) (files : List (Text × Text)) (e : DirEntry)
    → Consistent n files
    → Consistent n (with_entry n files e)
with_entry-Consistent n files e ok pod file h = elim ((with_entry_iff n files e ok pod file).0 h) [
  | inl (a, b, c, f) ↦ (a, b)
  | inr g ↦ ok pod file g
]

database_files_from :
    (n : Bool) (files : List (Text × Text)) (entries : List DirEntry)
    → Consistent n files
    → (pod file : Text)
    → (lookup pod (database_files n files entries) ≡ some file)
      ↔ (IsListed n entries pod file ⊎ (lookup pod files ≡ some file))
unfolding database_files
database_files_from n files [] ok pod file =
    (λ h. inr h, λ h. elim h [ inl (a, b, c) ↦ absurd c | inr g ↦ g ])
database_files_from n files (e ∷ es) ok pod file =
    let (to, from) =
      database_files_from n (with_entry n files e) es (with_entry-Consistent n files e ok) pod
        file in
    let (in_to, in_from) = with_entry_iff n files e ok pod file in
    (
      λ h. elim (to h) [
        | inl (a, b, later) ↦ inl (a, b, inr later)
        | inr g ↦ elim (in_to g) [ inl (a, b, c, f) ↦ inl (a, b, inl (c, f)) | inr old ↦ inr old ]
      ],
      λ h. elim h [
        | inl (a, b, c) ↦ elim c [
          | inl (d, f) ↦ from (inr (in_from (inl (a, b, d, f))))
          | inr later ↦ from (inl (a, b, later))
        ]
        | inr old ↦ from (inr (in_from (inr old)))
      ],
    )

-- A file is listed under a name exactly if the directory holds it, as a file, under that name with the
-- suffix of the databases that are asked for.
pub database_files_iff :
    (n : Bool) (entries : List DirEntry) (pod file : Text)
    → (lookup pod (database_files n [] entries) ≡ some file) ↔ IsListed n entries pod file
database_files_iff n entries pod file =
    let (to, from) = database_files_from n [] entries (λ p f h. cc) pod file in
    (λ h. elim (to h) [ inl l ↦ l | inr g ↦ cc ], λ l. from (inl l))
