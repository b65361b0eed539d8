-- ===== src/Text/Paths.antt =====
-- The functions of Go's path/filepath that the program uses, on Unix, and `strings.LastIndex` with the
-- slices around the index that it finds.
pub mod Laws
pub mod Below
pub mod Relative
pub mod Names
pub mod Elements
pub mod Parents
use ovn_kubernetes_mcp.Prelude.{
  ℕ, ◌≡◌, refl, Bool, true, false, not, ◌||◌, List, [], ◌∷◌, ◌++◌, Option, none, some, ◌==◌,
  if◌then◌else◌, is_empty, reverse,
}
use ovn_kubernetes_mcp.Text.{Text, codes, text_eq, split, join, has_prefix}

abbrev pub slash : ℕ
slash = b'/'

-- An element `..`: below a name it removes the name, at the root it is dropped, and in front of a
-- relative path it stays.
abbrev pub go_up : Bool → List Text → List Text
go_up rooted [] = if rooted then [] else codes ".." ∷ []
go_up rooted (top ∷ above) = if text_eq top (codes "..") then codes ".." ∷ top ∷ above else above

-- One element of a path, behind those of which the innermost is the first.
unfoldable pub step_into : Bool → List Text → Text → List Text
step_into rooted above name =
    if text_eq name [] || text_eq name (codes ".")
    then above
    else if text_eq name (codes "..")
    then go_up rooted above
    else name ∷ above

unfoldable pub walk : Bool → List Text → List Text → List Text
walk rooted above [] = above
walk rooted above (name ∷ names) = walk rooted (step_into rooted above name) names

abbrev pub rooted : Text → Bool
rooted path = has_prefix path (codes "/")

abbrev pub render_path : Bool → List Text → Text
render_path true names = slash ∷ join names slash
render_path false [] = codes "."
render_path false (n ∷ ns) = join (n ∷ ns) slash

-- `filepath.Clean`.
unfoldable pub clean : Text → Text
unfolding walk step_into split
clean path = render_path (rooted path) (reverse (walk (rooted path) [] (split path slash)))

-- `filepath.Join`: empty elements in front are left out.
unfoldable pub join_paths : List Text → Text
unfolding clean join
join_paths [] = []
join_paths ([] ∷ paths) = join_paths paths
join_paths ((c ∷ s) ∷ paths) = clean (join ((c ∷ s) ∷ paths) slash)

-- The path up to its last slash, with it.
unfoldable pub through_slash : Text → Text
through_slash [] = []
through_slash (c ∷ s) =
    let rest = through_slash s in if c == slash || not (is_empty rest) then c ∷ rest else []

-- `filepath.Dir`.
unfoldable pub dir : Text → Text
unfolding clean through_slash
dir path = clean (through_slash path)

-- `s[:i]` and `s[i+1:]` for `i := strings.LastIndex(s, sep)`, or nothing where it is -1.
unfoldable pub split_last : ℕ → Text → Option (Text × Text)
split_last sep [] = none
split_last sep (c ∷ s) = elim (split_last sep s) [
  | some (before, behind) ↦ some (c ∷ before, behind)
  | none ↦ if c == sep then some ([], s) else none
]

unfoldable pub trim_slashes : Text → Text
trim_slashes [] = []
trim_slashes (c ∷ s) =
    let rest = trim_slashes s in
    if c == slash then (if is_empty rest then [] else c ∷ rest) else c ∷ rest

abbrev pub behind_slash : Text → Option (Text × Text) → Text
behind_slash path none = path
behind_slash path (some (before, behind)) = behind

-- The last element of a path without slashes behind it.
unfoldable pub last_element : Text → Text
unfolding split_last
last_element [] = codes "/"
last_element (c ∷ s) = behind_slash (c ∷ s) (split_last slash (c ∷ s))

-- `filepath.Base`.
unfoldable pub base : Text → Text
base [] = codes "."
base (c ∷ s) = last_element (trim_slashes (c ∷ s))

clean_test :
    (clean (codes "/a//b/./../c/") ≡ codes "/a/c")
    × (clean (codes "../../x/..") ≡ codes "../..")
    × (clean (codes "/../..") ≡ codes "/")
    × (clean [] ≡ codes ".")
unfolding clean join
clean_test = (refl, refl, refl, refl)

join_paths_test :
    (join_paths (codes "/a" ∷ codes "../b" ∷ []) ≡ codes "/b")
    × (join_paths ([] ∷ codes "x" ∷ [] ∷ []) ≡ codes "x")
unfolding join_paths
join_paths_test = (refl, refl)

base_test :
    (base (codes "/a/b.log//") ≡ codes "b.log")
    × (base (codes "///") ≡ codes "/")
    × (base (codes "x") ≡ codes "x")
    × (dir (codes "/a/b") ≡ codes "/a")
    × (dir (codes "b") ≡ codes ".")
unfolding base dir join last_element trim_slashes
base_test = (refl, refl, refl, refl, refl)
