-- ===== src/MustGather/OvsdbTool/Databases/Mapping.antt =====
-- Which databases are mapped to which nodes.
use ovn_kubernetes_mcp.Prelude.{
  Bool, ◌∙◌, sym, ap, ◌≡◌, ◌↔◌, ◌⊎◌, inl, inr, refl, true, false, List, [], ◌∷◌, Option, none, some,
  Any, arith, is_empty, Bool-cases, Option-cases, if◌then◌else◌,
}
use ovn_kubernetes_mcp.Text.{Text, text_eq}
use ovn_kubernetes_mcp.Text.Laws.{text_eq_iff}
use ovn_kubernetes_mcp.Text.Dict.{lookup, delete, lookup-delete}
use ovn_kubernetes_mcp.MustGather.OvsdbTool.Databases.FileNames.{IsListed, database_files_iff}
use ovn_kubernetes_mcp.Files.{DirEntry}
use ovn_kubernetes_mcp.MustGather.OvsdbTool.Databases.{database_files, Pod, DbInfo, map_pods}

-- The node of the first pod with the name that has a node.
abbrev pub node_of : Text → List Pod → Option Text
node_of name [] = none
node_of name (pod ∷ pods) =
    if text_eq pod.name name
    then (if is_empty pod.node_name then node_of name pods else some pod.node_name)
    else node_of name pods

abbrev pub Mapped : List (Text × Text) → List Pod → DbInfo → Type 0
Mapped db_files pods i =
    (name : Text) × (lookup name db_files ≡ some i.database) × (node_of name pods ≡ some i.node)

map_pods-nil : (pods : List Pod) → map_pods [] pods ≡ []
unfolding map_pods
map_pods-nil [] = refl
map_pods-nil (pod ∷ pods) = refl

-- What a round does: it passes the pod over, or it takes the file of the pod.
abbrev Passes : List (Text × Text) → Pod → List Pod → Type 0
Passes db_files pod pods =
    ((lookup pod.name db_files ≡ none) ⊎ (is_empty pod.node_name ≡ true))
    × (map_pods db_files (pod ∷ pods) ≡ map_pods db_files pods)

abbrev Takes : List (Text × Text) → Pod → List Pod → Type 0
Takes db_files pod pods =
    (db_file : Text) × (lookup pod.name db_files ≡ some db_file)
    × (is_empty pod.node_name ≡ false)
    × (map_pods db_files (pod ∷ pods)
        ≡ record { database = db_file; node = pod.node_name }
          ∷ map_pods (delete pod.name db_files) pods)

round-cases :
    (db_files : List (Text × Text)) (pod : Pod) (pods : List Pod)
    → Passes db_files pod pods ⊎ Takes db_files pod pods
unfolding map_pods
round-cases [] pod pods = inl (inl refl, sym (map_pods-nil pods))
round-cases (f ∷ fs) pod pods = elim (Option-cases (lookup pod.name (f ∷ fs))) [
  | inl e ↦ inl (inl e, ground arith)
  | inr (db_file, e) ↦ elim (Bool-cases (is_empty pod.node_name)) [
    | inl b ↦ inl (inr b, ground arith)
    | inr b ↦ inr (db_file, e, b, ground arith)
  ]
]

-- Passing a pod over keeps the node of every name that is listed.
node_of-passed :
    (db_files : List (Text × Text)) (pod : Pod) (pods : List Pod) (name database : Text)
    → (lookup pod.name db_files ≡ none) ⊎ (is_empty pod.node_name ≡ true)
    → lookup name db_files ≡ some database
    → node_of name (pod ∷ pods) ≡ node_of name pods
node_of-passed db_files pod pods name database h e = elim (Bool-cases (text_eq pod.name name)) [
  | inl same ↦ elim h [
    | inl none_there ↦
        let l : lookup pod.name db_files ≡ lookup name db_files =
          ap (λ (k : Text). lookup k db_files) ((text_eq_iff pod.name name).0 same) in
        cc
    | inr empty ↦ rw (same, empty)
  ]
  | inr other ↦ rw other
]

node_of-other :
    (pod : Pod) (pods : List Pod) (name : Text)
    → text_eq pod.name name ≡ false
    → node_of name (pod ∷ pods) ≡ node_of name pods
node_of-other pod pods name h = rw h

node_of_self :
    (pod : Pod) (pods : List Pod)
    → is_empty pod.node_name ≡ false
    → node_of pod.name (pod ∷ pods) ≡ some pod.node_name
node_of_self pod pods h = rw ((text_eq_iff pod.name pod.name).1 refl, h)

-- A name that is left once another is deleted.
lookup-left :
    (k name database : Text) (db_files : List (Text × Text))
    → lookup name (delete k db_files) ≡ some database
    → (text_eq k name ≡ false) × (lookup name db_files ≡ some database)
lookup-left k name database db_files h = ground (arith, lookup-delete k name db_files)

passed-Mapped :
    (db_files : List (Text × Text)) (pod : Pod) (pods : List Pod) (i : DbInfo)
    → (lookup pod.name db_files ≡ none) ⊎ (is_empty pod.node_name ≡ true)
    → Mapped db_files (pod ∷ pods) i ↔ Mapped db_files pods i
passed-Mapped db_files pod pods i h = (
  λ (n, e, f). (n, e, sym (node_of-passed db_files pod pods n i.database h e) ∙ f),
  λ (n, e, f). (n, e, node_of-passed db_files pod pods n i.database h e ∙ f),
)

listed-Mapped :
    (db_files : List (Text × Text)) (pods : List Pod) (i : DbInfo)
    → Any (λ j. j ≡ i) (map_pods db_files pods)
    → Mapped db_files pods i
listed-Mapped db_files [] i h = absurd (unfold map_pods in h)
listed-Mapped db_files (pod ∷ pods) i h = elim (round-cases db_files pod pods) [
  | inl (why, e) ↦
      (passed-Mapped db_files pod pods i why).1 (listed-Mapped db_files pods i (rw e at h))
  | inr (db_file, l, b, e) ↦
      let taken : Any (λ j. j ≡ i)
          (record { database = db_file; node = pod.node_name }
            ∷ map_pods (delete pod.name db_files) pods) =
        rw e at h in
      elim taken [
        | inl same ↦ (
          pod.name,
          l ∙ ap (λ (j : DbInfo). some j.database) same,
          node_of_self pod pods b ∙ ap (λ (j : DbInfo). some j.node) same,
        )
        | inr later ↦
            let (n, f, g) = listed-Mapped (delete pod.name db_files) pods i later in
            let (other, f') = lookup-left pod.name n i.database db_files f in
            (n, f', node_of-other pod pods n other ∙ g)
      ]
]

kept-lookup :
    (k name database : Text) (db_files : List (Text × Text))
    → text_eq k name ≡ false
    → lookup name db_files ≡ some database
    → lookup name (delete k db_files) ≡ some database
kept-lookup k name database db_files h e = lookup-delete k name db_files ∙ rw h e

taken_same :
    (pod : Pod) (pods : List Pod) (i : DbInfo) (n : Text) (db_files : List (Text × Text))
    (db_file : Text)
    → pod.name ≡ n
    → lookup pod.name db_files ≡ some db_file
    → is_empty pod.node_name ≡ false
    → lookup n db_files ≡ some i.database
    → node_of n (pod ∷ pods) ≡ some i.node
    → record { database = db_file; node = pod.node_name } ≡ i
taken_same pod pods i n db_files db_file same l b f g =
    let own : node_of n (pod ∷ pods) ≡ some pod.node_name =
      ap (λ (k : Text). node_of k (pod ∷ pods)) (sym same) ∙ node_of_self pod pods b in
    let there : lookup n db_files ≡ some db_file =
      ap (λ (k : Text). lookup k db_files) (sym same) ∙ l in
    let d : db_file ≡ i.database = cc in let m : pod.node_name ≡ i.node = cc in ground arith

Mapped-listed :
    (db_files : List (Text × Text)) (pods : List Pod) (i : DbInfo)
    → Mapped db_files pods i
    → Any (λ j. j ≡ i) (map_pods db_files pods)
Mapped-listed db_files [] i (n, e, h) = cc
Mapped-listed db_files (pod ∷ pods) i m = elim (round-cases db_files pod pods) [
  | inl (why, e) ↦
      rw e (Mapped-listed db_files pods i ((passed-Mapped db_files pod pods i why).0 m))
  | inr (db_file, l, b, e) ↦
      let (n, f, g) = m in
      rw e (elim (Bool-cases (text_eq pod.name n)) [
        | inl same ↦
            inl (taken_same pod pods i n db_files db_file ((text_eq_iff pod.name n).0 same) l b f g)
        | inr other ↦ inr (
            Mapped-listed (delete pod.name db_files) pods i (
              n,
              kept-lookup pod.name n i.database db_files other f,
              sym (node_of-other pod pods n other) ∙ g,
            ))
      ])
]

-- The mapping holds exactly the pairs of a database file and the node of the first scheduled pod with
-- the name that the file is listed under.
pub map_pods_iff :
    (db_files : List (Text × Text)) (pods : List Pod) (i : DbInfo)
    → Any (λ j. j ≡ i) (map_pods db_files pods) ↔ Mapped db_files pods i
map_pods_iff db_files pods i = (listed-Mapped db_files pods i, Mapped-listed db_files pods i)

-- For the entries of the store and the pods of the must-gather, the mapping holds exactly these pairs:
-- a database of the kind that is asked for, a file of the store that is named for a pod, and the node
-- of the first pod of that name that has one.
pub mapping_iff :
    (is_northbound : Bool) (entries : List DirEntry) (pods : List Pod) (i : DbInfo)
    → Any (λ j. j ≡ i) (map_pods (database_files is_northbound [] entries) pods) ↔ (
        (pod : Text) × IsListed is_northbound entries pod i.database
        × (node_of pod pods ≡ some i.node))
mapping_iff is_northbound entries pods i =
    let (to, from) = map_pods_iff (database_files is_northbound [] entries) pods i in
    (
      λ h.
          let (pod, l, n) = to h in
          (pod, (database_files_iff is_northbound entries pod i.database).0 l, n),
      λ (pod, l, n). from (pod, (database_files_iff is_northbound entries pod i.database).1 l, n),
    )
