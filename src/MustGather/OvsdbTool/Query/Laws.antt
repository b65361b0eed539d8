-- ===== src/MustGather/OvsdbTool/Query/Laws.antt =====
-- What a query of a database runs.
use mathlib.Core.Path.{subst}
use ovn_kubernetes_mcp.Files.Laws.{
  Ensures, Ensures-bind, Ensures-lift, Ensures-ask, Ensures-wrap_all,
}
use ovn_kubernetes_mcp.Prelude.{
  Result-cases, ◌≡◌, ◌≢◌, ◌≤◌, refl, sym, ap, ◌∙◌, ◌⊎◌, inl, inr, Bool, true, false, not, ◌&&◌,
  ◌||◌, List, [], ◌∷◌, ◌++◌, arith, ◌==◌, Bool-cases, Option-cases, All, is_empty, reject_if,
  Result, ok, Error, wrap-eq-ok, every_iff,
}
use ovn_kubernetes_mcp.Text.{Text, codes, text_eq, has_suffix, is_alnum}
use ovn_kubernetes_mcp.Text.Laws.{text_eq_iff}
use ovn_kubernetes_mcp.Text.Joins.{Lacks}
use ovn_kubernetes_mcp.Text.Paths.{slash, base, join_paths}
use ovn_kubernetes_mcp.Text.Paths.Laws.{place}
use ovn_kubernetes_mcp.Text.Paths.Names.{IsEntryName, place-join_names}
use ovn_kubernetes_mcp.Text.Paths.Elements.{base-Lacks}
use ovn_kubernetes_mcp.Files.{Request, stat, read_dir, run_command, Outcome, leaf}
use ovn_kubernetes_mcp.Exec.{Context}
use ovn_kubernetes_mcp.MustGather.OvsdbTool.{ovnk_database_store}
use ovn_kubernetes_mcp.MustGather.OvsdbTool.Confined.{IsFair}
use ovn_kubernetes_mcp.MustGather.OvsdbTool.Logs.{logs_of, get_network_logs_directory-IsLogs}
use ovn_kubernetes_mcp.Text.Suffixes.{has_suffix_sound}
use ovn_kubernetes_mcp.MustGather.OvsdbTool.Query.{
  Query, validate_ovn_table_name, parse_conditions, columns_of, build_query_string, schema_of,
  query_result, run_query, query_database,
}

-- The test for the end of a database's name.
abbrev lacks_suffix : Text → Bool
lacks_suffix db =
    is_empty db || (not (has_suffix db (codes "_nbdb")) && not (has_suffix db (codes "_sbdb")))

short_names :
    (lacks_suffix (codes ".") ≡ true)
    × (lacks_suffix (codes "..") ≡ true)
    × (lacks_suffix (codes "/") ≡ true)
unfolding has_suffix
short_names = (refl, refl, refl)

differs : (db short : Text) → lacks_suffix short ≡ true → lacks_suffix db ≡ false → db ≢ short
differs db short h k e = let same = ap (λ (t : Text). lacks_suffix t) e in cc

db_name-IsEntryName :
    (db : Text) → lacks_suffix db ≡ false → text_eq (base db) db ≡ true → IsEntryName db
db_name-IsEntryName db h e =
    let (dot, up, root) = short_names in
    let same : base db ≡ db = (text_eq_iff (base db) db).0 e in
    (
      differs db [] refl h,
      differs db (codes ".") dot h,
      differs db (codes "..") up h,
      elim (base-Lacks db) [
        | inl q ↦ absurd (differs db (codes "/") root h (sym same ∙ q))
        | inr l ↦ subst (Lacks slash) same l
      ],
    )

-- The schema goes by the end of the database's name.
abbrev pub IsSchemaOf : Text → Text → Type 0
IsSchemaOf db schema =
    ((front : Text) × (db ≡ front ++ codes "_nbdb") × (schema ≡ codes "OVN_Northbound"))
    ⊎ ((front : Text) × (db ≡ front ++ codes "_sbdb") × (schema ≡ codes "OVN_Southbound"))

schema_of-IsSchemaOf : (db : Text) → lacks_suffix db ≡ false → IsSchemaOf db (schema_of db)
schema_of-IsSchemaOf db h = elim (Bool-cases (has_suffix db (codes "_nbdb"))) [
  | inl n ↦ let (r, e) = has_suffix_sound db (codes "_nbdb") n in inl (r, e, rw n)
  | inr n ↦
      let s : has_suffix db (codes "_sbdb") ≡ true = ground arith in
      let (r, e) = has_suffix_sound db (codes "_sbdb") s in inr (r, e, rw n)
]

-- A capital letter, and then letters, digits and underscores.
abbrev pub IsTableName : Text → Type 0
IsTableName [] = ⊥
IsTableName (c ∷ s) = (b'A' ≤ c) × (c ≤ b'Z') × All (λ d. is_alnum d || d == b'_' ≡ true) s

pub validate_ovn_table_name-IsTableName :
    (t : Text) {u : Unit {0}} → validate_ovn_table_name t ≡ ok u → IsTableName t
unfolding validate_ovn_table_name
validate_ovn_table_name-IsTableName [] h = cc
validate_ovn_table_name-IsTableName (c ∷ s) h =
    (ground arith, ground arith, (every_iff (λ d. is_alnum d || d == b'_') s).0 (ground arith))

unrejected : (b : Bool) (e : Error) {u : Unit {0}} → reject_if b e ≡ ok u → b ≡ false
unrejected true e h = cc
unrejected false e h = refl

accepted : (b : Bool) (e : Error) {u : Unit {0}} → reject_if (not b) e ≡ ok u → b ≡ true
accepted true e h = refl
accepted false e h = cc

store_name : IsEntryName ovnk_database_store
store_name = ((λ e. cc), (λ e. cc), (λ e. cc), ground arith)

module _ {Json : Type 0} (unmarshal : Text → Result Json) (marshal : Query Json → Result Text) where
  -- The JSON values of the conditions, one by one.
  abbrev pub Parses : List Text → List Json → Type 0
  Parses [] [] = Unit
  Parses [] (j ∷ js) = ⊥
  Parses (c ∷ cs) [] = ⊥
  Parses (c ∷ cs) (j ∷ js) = (unmarshal c ≡ ok j) × Parses cs js

  parse_conditions-Parses :
      (cs : List Text) (js : List Json)
      → parse_conditions unmarshal marshal cs ≡ ok js
      → Parses cs js
  unfolding parse_conditions
  parse_conditions-Parses [] [] h = tt
  parse_conditions-Parses [] (j ∷ js) h = cc
  parse_conditions-Parses (c ∷ cs) js h = elim (Result-cases (unmarshal c)) [
    | inl (j, e) ↦ elim (Result-cases (parse_conditions unmarshal marshal cs)) [
      | inl (rest, f) ↦
          let same : j ∷ rest ≡ js = ground arith in
          subst (Parses (c ∷ cs)) same (e, parse_conditions-Parses cs rest f)
      | inr (x, f) ↦ absurd (ground arith)
    ]
    | inr (x, e) ↦ absurd (ground arith)
  ]

  -- The query that is built selects from the table where the parsed conditions hold.
  abbrev pub IsQueryText : Text → Text → List Text → List Text → Text → Type 0
  IsQueryText schema table conditions columns query =
      (parsed : List Json) × Parses conditions parsed
      × (marshal (record {
        schema_name = schema;
        op = codes "select";
        table = table;
        conditions = parsed;
        columns = columns_of columns;
      })
          ≡ ok query)

  build_query_string-IsQueryText :
      (schema table : Text) (conditions columns : List Text) (query : Text)
      → build_query_string unmarshal marshal schema table conditions columns ≡ ok query
      → IsQueryText schema table conditions columns query
  unfolding build_query_string
  build_query_string-IsQueryText schema table conditions columns query h =
      elim (Result-cases (parse_conditions unmarshal marshal conditions)) [
        | inl (parsed, e) ↦ (
          parsed,
          parse_conditions-Parses conditions parsed e,
          wrap-eq-ok "failed to marshal query to JSON: %w" [] _ (ground arith),
        )
        | inr (x, e) ↦ absurd (ground arith)
      ]

  module _ (ctx : Context) (tool must_gather db table : Text) (conditions columns : List Text) where
    -- The command is the tool's query of the database, which lies right in the store of the network logs
    -- of a directory of the must-gather.
    pub record IsQueryRun (c : Context) (command : Text) (args : List Text) : Type 0 where
      pub name : Text
      pub plain : IsEntryName name
      pub path : Text
      pub query : Text
      pub schema : Text
      pub same_ctx : c ≡ ctx
      pub same_tool : command ≡ tool
      pub words : args ≡ codes "query" ∷ path ∷ query ∷ []
      pub in_store : place path ≡ db ∷ ovnk_database_store ∷ place (logs_of must_gather name)
      pub by_suffix : IsSchemaOf db schema
      pub selects : IsQueryText schema table conditions columns query

    abbrev pub IsQuery : Request → Type 0
    IsQuery (run_command c command args) = IsQueryRun c command args × IsTableName table
    IsQuery (stat path) = Unit
    IsQuery (read_dir path) = Unit
    IsQuery r = ⊥

    outcome : (o : Outcome) → Ensures IsFair IsQuery (λ _. Unit) (leaf (query_result o))
    outcome o = elim (Option-cases o.error) [ inl e ↦ rw e tt | inr (x, e) ↦ rw e tt ]

    run_query-IsQuery :
        (query schema : Text)
        → IsEntryName db
        → IsSchemaOf db schema
        → IsTableName table
        → IsQueryText schema table conditions columns query
        → Ensures IsFair IsQuery (λ _. Unit) (run_query ctx tool must_gather db query)
    unfolding run_query
    run_query-IsQuery query schema plain_db suffix tabled selects =
        Ensures-bind IsFair _ _ _ _ _
          (Ensures-wrap_all IsFair _ _ _ _ _
            (get_network_logs_directory-IsLogs IsQuery (λ _. tt) (λ _. tt) must_gather))
          λ logs (name, plain, same, root). Ensures-ask IsFair _ _ _ _ _ tt λ a _.
            Ensures-lift IsFair _ _ _ _ λ _ _.
              Ensures-ask IsFair _ _ _ _ _
                (
                  record {
                    name = name;
                    plain = plain;
                    path = join_paths (logs ∷ ovnk_database_store ∷ db ∷ []);
                    query = query;
                    schema = schema;
                    same_ctx = refl;
                    same_tool = refl;
                    words = refl;
                    in_store =
                        place-join_names logs ovnk_database_store db root store_name plain_db
                        ∙ ap (λ (l : Text). db ∷ ovnk_database_store ∷ place l) same;
                    by_suffix = suffix;
                    selects = selects;
                  },
                  tabled,
                )
                λ o _. Ensures-lift IsFair _ _ _ _ λ o' _. outcome o'

    -- Whatever the must-gather and the answers, a query of a database writes nothing and runs one
    -- kind of command only: the tool's `query`, of the file of that name right in the database
    -- store below the must-gather, with the text of a select from a table with a plain name, in the
    -- schema that the end of the database's name tells. It is taken that the entries of a directory
    -- have plain names, and that a temporary file is created in the directory that is asked for.
    pub query_database-IsQuery :
        Ensures IsFair IsQuery
          (λ _. Unit)
          (query_database unmarshal marshal ctx tool must_gather db table conditions columns)
    unfolding query_database
    query_database-IsQuery = Ensures-lift IsFair _ _ _ _ λ _ named.
        Ensures-lift IsFair _ _ _ _ λ _ based. Ensures-lift IsFair _ _ _ _ λ _ tabled.
          Ensures-lift IsFair _ _ _ _ λ query built.
            run_query-IsQuery query (schema_of db)
              (db_name-IsEntryName db (unrejected _ _ named) (accepted _ _ based))
              (schema_of-IsSchemaOf db (unrejected _ _ named))
              (validate_ovn_table_name-IsTableName table (wrap-eq-ok _ _ _ tabled))
              (build_query_string-IsQueryText (schema_of db) table conditions columns query
                (wrap-eq-ok _ _ _ built))
