-- ===== src/MustGather/OvsdbTool/Query.antt =====
-- pkg/must-gather/ovsdb-tool/query.go, and `buildQueryString` and `validateOVNTableName` of utils.go
-- beside it. A JSON value, and `json.Unmarshal` and `json.Marshal`, are parameters.
pub mod Laws
use ovn_kubernetes_mcp.Prelude.{
  Bool, true, false, not, ◌&&◌, ◌||◌, List, [], ◌∷◌, Option, none, some, ◌==◌, if◌then◌else◌,
  between, is_empty, every, errorf, wrapf, wrap, reject_if, Result, ok, err,
}
use ovn_kubernetes_mcp.Text.{Text, codes, text_eq, has_suffix, is_alnum}
use ovn_kubernetes_mcp.Text.Paths.{base, join_paths}
use ovn_kubernetes_mcp.Exec.{Context}
use ovn_kubernetes_mcp.Files.{
  Outcome, run_command, leaf, ask, asked, Program, ◌>>=◌, ◌>>◌, wrap_all,
}
use ovn_kubernetes_mcp.MustGather.Path.{check_found}
use ovn_kubernetes_mcp.MustGather.OvsdbTool.{ovnk_database_store, get_network_logs_directory}

-- `^[A-Z][a-zA-Z0-9_]*$`
abbrev pub ovn_table_names_pattern : Text → Bool
ovn_table_names_pattern [] = false
ovn_table_names_pattern (c ∷ s) = between b'A' b'Z' c && every (λ d. is_alnum d || d == b'_') s

unfoldable pub validate_ovn_table_name : Text → Result (Unit {0})
validate_ovn_table_name table =
    if is_empty table
    then err (errorf "table name is required" [])
    else reject_if (not (ovn_table_names_pattern table))
        (errorf "invalid OVN table name: %s" (table ∷ []))

-- The query `[schema, {op, table, where, columns}]`; without columns the last field is absent.
pub record Query (Json : Type 0) : Type 0 where
  pub schema_name : Text
  pub op : Text
  pub table : Text
  pub conditions : List Json
  pub columns : Option (List Text)

abbrev pub schema_of : Text → Text
schema_of db_name =
    if has_suffix db_name (codes "_nbdb") then codes "OVN_Northbound" else codes "OVN_Southbound"

abbrev pub query_result : Outcome → Result Text
query_result o = elim o.error [
  | none ↦ ok o.output
  | some e ↦ err (wrapf "failed to query database. output: %s, error: %w" (o.output ∷ []) e)
]

-- `QueryDatabase` once its parameters are validated and the query is built.
unfoldable pub run_query : Context → Text → Text → Text → Text → Program Text
run_query ctx tool mustgather_path db_name query = do
  logs ←
      wrap_all "failed to get network logs directory: %w" []
        (get_network_logs_directory mustgather_path)
  let db_path = join_paths (logs ∷ ovnk_database_store ∷ db_name ∷ [])
  check_found "database file %s not found: %w" "failed to stat database file %s: %w" db_path
  o ← asked (run_command ctx tool (codes "query" ∷ db_path ∷ query ∷ []))
  leaf (query_result o)

abbrev pub columns_of : List Text → Option (List Text)
columns_of [] = none
columns_of (c ∷ cs) = some (c ∷ cs)

module _ {Json : Type 0} (unmarshal : Text → Result Json) (marshal : Query Json → Result Text) where
  -- The loop over the conditions.
  unfoldable pub parse_conditions : List Text → Result (List Json)
  parse_conditions [] = ok []
  parse_conditions (c ∷ cs) = elim (unmarshal c) [
    | err e ↦ err (wrapf "failed to parse condition %q: %w" (c ∷ []) e)
    | ok j ↦ elim (parse_conditions cs) [ err e ↦ err e | ok js ↦ ok (j ∷ js) ]
  ]

  abbrev pub select : Text → Text → List Text → List Json → Query Json
  select schema_name table columns parsed = record {
    schema_name = schema_name;
    op = codes "select";
    table = table;
    conditions = parsed;
    columns = columns_of columns;
  }

  abbrev pub marshalled : Text → Text → List Text → Result (List Json) → Result Text
  marshalled schema_name table columns (err e) = err e
  marshalled schema_name table columns (ok parsed) =
      wrap "failed to marshal query to JSON: %w" []
        (marshal (select schema_name table columns parsed))

  unfoldable pub build_query_string : Text → Text → List Text → List Text → Result Text
  build_query_string schema_name table conditions columns =
      if not (text_eq schema_name (codes "OVN_Northbound"))
        && not (text_eq schema_name (codes "OVN_Southbound"))
      then err (
          errorf "schema name must be either \"OVN_Northbound\" or \"OVN_Southbound\": %s"
            (schema_name ∷ []))
      else if is_empty table
      then err (errorf "table must not be empty" [])
      else marshalled schema_name table columns (parse_conditions conditions)

  unfoldable pub query_database :
      Context → Text → Text → Text → Text → List Text → List Text → Program Text
  query_database ctx tool mustgather_path db_name table conditions columns = do
    leaf (
        reject_if
          (is_empty db_name
            || (not (has_suffix db_name (codes "_nbdb"))
                && not (has_suffix db_name (codes "_sbdb"))))
          (errorf "database name is required and must end with _nbdb or _sbdb: %s" (db_name ∷ [])))
    leaf (
        reject_if (not (text_eq (base db_name) db_name))
          (errorf "database name %s contains path traversal characters" (db_name ∷ [])))
    leaf (wrap "failed to validate table: %w" [] (validate_ovn_table_name table))
    query ← leaf (
        wrap "failed to build query string: %w" []
          (build_query_string (schema_of db_name) table conditions columns))
    run_query ctx tool mustgather_path db_name query
