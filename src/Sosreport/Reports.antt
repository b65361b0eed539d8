-- ===== src/Sosreport/Reports.antt =====
-- pkg/sosreport/mcp/utils.go and manifest.go, and the part of pkg/sosreport/types/manifest.go that is
-- read. `json.Unmarshal` of the manifest is a parameter. The plugins stand in the order in which Go
-- ranges over their map, which may be any.
use ovn_kubernetes_mcp.Prelude.{
  refl, ◌≡◌, ℕ, ◌||◌, List, [], ◌∷◌, map, none, some, ◌==◌, leb, if◌then◌else◌, any, errorf, wrap,
  reject_if, Error, Result, ok, err,
}
use ovn_kubernetes_mcp.Text.{Text, codes, contains, split, len}
use ovn_kubernetes_mcp.Text.Paths.{clean, join_paths, rooted}
use ovn_kubernetes_mcp.Files.{
  Stat, found, missing, unknown, Content, stat, read_file, read_all, leaf, ask, Program, ◌>>=◌,
  ◌>>◌, wrapped,
}
use ovn_kubernetes_mcp.Utils.Lines.{newline}

pub record CommandDetail : Type 0 where
  pub exec : Text
  pub filepath : Text

pub record PluginDetail : Type 0 where
  pub commands : List CommandDetail
  pub files : List (List Text)

abbrev pub Manifest : Type 0
Manifest = List (Text × PluginDetail)

abbrev pub manifest_path : Text → Text
manifest_path sosreport_path =
    join_paths (sosreport_path ∷ codes "sos_reports" ∷ codes "manifest.json" ∷ [])

-- `if _, err := os.Stat(path); os.IsNotExist(err) { return error }`
abbrev pub exists_or : Error → Stat → Result (Unit {0})
exists_or e (found is_dir) = ok tt
exists_or e (missing x) = err e
exists_or e (unknown x) = ok tt

abbrev pub check_exists : Text → Error → Program (Unit {0})
check_exists path e = ask (stat path) (λ s. leaf (exists_or e s))

unfoldable pub validate_sosreport_path : Text → Program (Unit {0})
validate_sosreport_path sosreport_path = do
  check_exists sosreport_path (errorf "sosreport path does not exist: %s" (sosreport_path ∷ []))
  check_exists (join_paths (sosreport_path ∷ codes "sos_commands" ∷ []))
      (errorf "not a valid sosreport: missing sos_commands directory" [])
  check_exists (manifest_path sosreport_path)
      (errorf "not a valid sosreport: missing sos_reports/manifest.json" [])

unfoldable pub validate_relative_path : Text → Result (Unit {0})
validate_relative_path rel_path =
    reject_if (contains (clean rel_path) (codes "..") || rooted (clean rel_path))
      (errorf "invalid path: path traversal not allowed" [])

-- A line loses one carriage return at its end.
unfoldable pub drop_cr : Text → Text
drop_cr [] = []
drop_cr (c ∷ []) = if c == 13 then [] else c ∷ []
drop_cr (c ∷ d ∷ s) = c ∷ drop_cr (d ∷ s)

-- What stands behind the last line feed is a line if it is not empty.
unfoldable pub drop_last_empty : List Text → List Text
drop_last_empty [] = []
drop_last_empty ([] ∷ []) = []
drop_last_empty ((c ∷ s) ∷ []) = (c ∷ s) ∷ []
drop_last_empty (l ∷ m ∷ ls) = l ∷ drop_last_empty (m ∷ ls)

-- The buffer of the scanner has to hold a line and what ends it.
abbrev pub max_token_size : ℕ
max_token_size = 1048576

-- What the loop over a `bufio.Scanner` makes of the content of a reader.
unfoldable pub scan_lines : Content → Result (List Text)
unfolding drop_cr drop_last_empty len split
scan_lines c =
    if any (λ l. leb max_token_size (len l)) (split c.text newline)
    then err (errorf "bufio.Scanner: token too long" [])
    else elim c.failure [
      | some e ↦ err e
      | none ↦ ok (map drop_cr (drop_last_empty (split c.text newline)))
    ]

unfoldable pub read_lines : Text → Program (List Text)
read_lines path = ask (read_all path) (λ c. leaf (scan_lines c))

unfoldable pub load_manifest : (Text → Result Manifest) → Text → Program Manifest
load_manifest unmarshal sosreport_path = do
  text ←
      ask (read_file (manifest_path sosreport_path)) (wrapped "failed to read manifest.json: %w" [])
  leaf (wrap "failed to parse manifest.json: %w" [] (unmarshal text))

scan_test :
    scan_lines (record { text = codes "a\r\n\nb"; failure = none })
    ≡ ok (codes "a" ∷ [] ∷ codes "b" ∷ [])
unfolding scan_lines
scan_test = refl
