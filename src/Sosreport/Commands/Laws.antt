-- ===== src/Sosreport/Commands/Laws.antt =====
-- The search of the commands finds the first matches, up to its limit, and the counts add up.
use ovn_kubernetes_mcp.Prelude.{
  is_empty, length-append, ℕ, ◌≤◌, ◌<◌, ◌≡◌, refl, sym, ap, ◌∙◌, inl, inr, Bool, true, false, ◌||◌,
  List, [], ◌∷◌, ◌++◌, map, append_assoc, append-nil, arith, leb, if◌then◌else◌, Bool-cases, keep,
  length, take, ok, Result,
}
use ovn_kubernetes_mcp.Prelude.Int.{ℤ, pos_part}
use ovn_kubernetes_mcp.Text.{Text}
use ovn_kubernetes_mcp.Utils.Pattern.{PatternParams, Regexp, pattern_test}
use ovn_kubernetes_mcp.Files
use ovn_kubernetes_mcp.Files.{Request, Answer, read_file, run}
use ovn_kubernetes_mcp.Sosreport.Reports.{CommandDetail, Manifest, manifest_path, load_manifest}
use ovn_kubernetes_mcp.Sosreport.Commands.{
  CommandMatch, command_matches, search_plugin, search_plugins, result_limit, search_manifest,
  search_commands,
}

-- The commands of a plugin, and of all plugins in order, as they are reported.
abbrev pub reported : Text → List CommandDetail → List CommandMatch
reported name cmds =
    map (λ (c : CommandDetail). record { plugin = name; exec = c.exec; filepath = c.filepath }) cmds

abbrev pub all_commands : Manifest → List CommandMatch
all_commands [] = []
all_commands ((name, plugin) ∷ rest) = reported name plugin.commands ++ all_commands rest

abbrev pub hits : (Text → Bool) → CommandMatch → Bool
hits test m = test m.exec || test m.filepath

take_full {ℓ} : {A : Type ℓ} (n : ℕ) (xs ys : List A) → length xs ≡ n → take n (xs ++ ys) ≡ xs
take_full ℕ.zero [] ys h = refl
take_full ℕ.zero (x ∷ xs) ys h = absurd (omega arith)
take_full (ℕ.suc n) [] ys h = absurd (omega arith)
take_full (ℕ.suc n) (x ∷ xs) ys h = ap (λ l. x ∷ l) (take_full n xs ys (omega arith))

take_short {ℓ} : {A : Type ℓ} (n : ℕ) (xs : List A) → length xs ≤ n → take n xs ≡ xs
take_short ℕ.zero [] h = refl
take_short ℕ.zero (x ∷ xs) h = absurd (omega arith)
take_short (ℕ.suc n) [] h = refl
take_short (ℕ.suc n) (x ∷ xs) h = ap (λ l. x ∷ l) (take_short n xs (omega arith))

leb→le : (a b : ℕ) → leb a b ≡ true → a ≤ b
leb→le a b h = ground arith

lt_of_open : (a b : ℕ) → leb a b ≡ false → b < a
lt_of_open a b h = ground arith

limit_positive : (m : ℤ) → 0 < result_limit m
limit_positive m = ground arith

keep-append :
    (test : CommandMatch → Bool) (xs ys : List CommandMatch)
    → keep test (xs ++ ys) ≡ keep test xs ++ keep test ys
keep-append test [] ys = refl
keep-append test (x ∷ xs) ys = elim (Bool-cases (test x)) [
  | inl e ↦ rw (e, keep) (ap (λ l. x ∷ l) (keep-append test xs ys))
  | inr e ↦ rw (e, keep) (keep-append test xs ys)
]

module _ (compile : Regexp) (p : PatternParams) (test : Text → Bool)
    (compiled : pattern_test compile p ≡ ok test) (limit : ℕ) where
  matched :
      (cmd : CommandDetail)
      → command_matches compile p cmd ≡ ok (test cmd.exec || test cmd.filepath)
  unfolding command_matches
  matched cmd = rw compiled

  -- The rest of a search, as long as it has room.
  abbrev Continues : (List CommandMatch → Result (List CommandMatch)) → List CommandMatch → Type 0
  Continues next more =
      (found : List CommandMatch)
      → length found < limit
      → next found ≡ ok (take limit (found ++ more))

  search_plugin_lem :
      (name : Text) (cmds : List CommandDetail) (found more : List CommandMatch)
      (next : List CommandMatch → Result (List CommandMatch))
      → length found < limit
      → Continues next more
      → search_plugin compile p limit name cmds found next
        ≡ ok (take limit (found ++ (keep (hits test) (reported name cmds) ++ more)))
  unfolding search_plugin
  search_plugin_lem name [] found more next room go = go found room
  search_plugin_lem name (cmd ∷ cmds) found more next room go =
      elim (Bool-cases (test cmd.exec || test cmd.filepath)) [
        | inl hit ↦
            let m : CommandMatch = record {
              plugin = name;
              exec = cmd.exec;
              filepath = cmd.filepath;
            } in
            let rest = keep (hits test) (reported name cmds) ++ more in
            let e : command_matches compile p cmd ≡ ok true = matched cmd ∙ ap (λ b. ok b) hit in
            let regroup : found ++ (m ∷ rest) ≡ (found ++ (m ∷ [])) ++ rest =
              sym (append_assoc found (m ∷ []) rest) in
            elim (Bool-cases (leb limit (length (found ++ (m ∷ []))))) [
              | inl full ↦
                  rw (e, search_plugin, full, hit)
                    (ap (λ l. ok l)
                      (sym (
                          take_full limit (found ++ (m ∷ [])) rest
                            (omega (arith, length-append {0} found (m ∷ []), leb→le _ _ full)))
                        ∙ ap (take limit) (sym regroup)))
              | inr open_ ↦
                  rw (e, search_plugin, open_, hit)
                    (search_plugin_lem name cmds (found ++ (m ∷ [])) more next
                        (lt_of_open _ _ open_) go
                      ∙ ap (λ l. ok (take limit l)) (sym regroup))
            ]
        | inr miss ↦
            let e : command_matches compile p cmd ≡ ok false = matched cmd ∙ ap (λ b. ok b) miss in
            rw (e, search_plugin, miss) (search_plugin_lem name cmds found more next room go)
      ]

  search_plugins_lem :
      (manifest : Manifest) (found : List CommandMatch)
      → length found < limit
      → search_plugins compile p limit manifest found
        ≡ ok (take limit (found ++ keep (hits test) (all_commands manifest)))
  unfolding search_plugins
  search_plugins_lem [] found room =
      ap (λ l. ok l)
        (sym (take_short limit found (omega arith)) ∙ ap (take limit) (sym (append-nil found)))
  search_plugins_lem ((name, plugin) ∷ rest) found room =
      search_plugin_lem name plugin.commands found (keep (hits test) (all_commands rest))
        (λ f. search_plugins compile p limit rest f) room
        (λ f room'. search_plugins_lem rest f room')
      ∙ ap (λ l. ok (take limit (found ++ l)))
          (sym (keep-append (hits test) (reported name plugin.commands) (all_commands rest)))

-- With a pattern that compiles, the search of a manifest returns the first commands of the plugins, in
-- their order, whose line or file path matches, as many as the limit allows, and their number. The
-- limit is 100 where none is given.
pub search_manifest_lem :
    (compile : Regexp) (p : PatternParams) (test : Text → Bool) (manifest : Manifest)
    (max_results : ℤ)
    → pattern_test compile p ≡ ok test
    → search_manifest compile p manifest max_results ≡ (
        let found =
          take
            (if leb (pos_part max_results) 0 then 100 else pos_part max_results)
            (keep (hits test) (all_commands manifest)) in
        ok (record { matches = found; total = length found }))
unfolding search_manifest
search_manifest_lem compile p test manifest max_results compiled =
    rw
      (search_plugins_lem compile p test compiled (result_limit max_results) manifest []
        (limit_positive max_results))
      refl

-- Against a manifest that is read and parsed, with a pattern that is given and compiles, the tool for
-- searching commands returns the first commands of the plugins, in the manifest's order, whose line or
-- file path matches, as many as the limit allows, and their number. The limit is 100 where none is
-- given.
pub search_commands_finds :
    (answer : (r : Request) → Answer r) (unmarshal : Text → Result Manifest) (compile : Regexp)
    (sosreport_path : Text) (p : PatternParams) (max_results : ℤ) (text : Text)
    (manifest : Manifest) (test : Text → Bool)
    → is_empty p.pattern ≡ false
    → answer (read_file (manifest_path sosreport_path)) ≡ ok text
    → unmarshal text ≡ ok manifest
    → pattern_test compile p ≡ ok test
    → run answer (search_commands unmarshal compile sosreport_path p max_results) ≡ (
        let found =
          take
            (if leb (pos_part max_results) 0 then 100 else pos_part max_results)
            (keep (hits test) (all_commands manifest)) in
        ok (record { matches = found; total = length found }))
unfolding search_commands load_manifest run Files.◌>>=◌
search_commands_finds answer unmarshal compile sosreport_path p max_results text manifest test given
      read parsed compiled =
    rw given (
      rw (read, run)
        (rw (parsed, run) (search_manifest_lem compile p test manifest max_results compiled)))
