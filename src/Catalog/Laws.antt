-- ===== src/Catalog/Laws.antt =====
-- The search for the root of the repository ends.
use ovn_kubernetes_mcp.Prelude.{
  ℕ, zero, suc, ◌+◌, ◌<◌, ◌≡◌, refl, ap, ◌∙◌, ◌⊎◌, inl, inr, true, false, arith, length, List, [],
  some, Bool-cases, errorf, Result, ok, err,
}
use ovn_kubernetes_mcp.Text.{Text, text_eq}
use ovn_kubernetes_mcp.Text.Laws.{text_eq_iff}
use ovn_kubernetes_mcp.Text.Paths.{rooted, clean, dir}
use ovn_kubernetes_mcp.Text.Paths.Laws.{place}
use ovn_kubernetes_mcp.Text.Paths.Parents.{rooted-dir, clean-dir, place-dir}
use ovn_kubernetes_mcp.Files.{Request, Answer, stat, run}
use ovn_kubernetes_mcp.Catalog.{is_found, go_mod, find_repo_root}

-- The directory, or its directory, and so on.
pub data IsAbove : Text → Text → Type 0 where
  itself : {start : Text} → IsAbove start start
  further : {start d : Text} → IsAbove (dir start) d → IsAbove start d

-- Nothing but itself is above a directory that is its own.
top-IsAbove : (start d : Text) → IsAbove start d → dir start ≡ start → d ≡ start
top-IsAbove start d itself e = refl
top-IsAbove start d (further a) e = top-IsAbove (dir start) d a (ap dir e) ∙ e

-- No directory above holds go.mod.
abbrev Lacking : ((r : Request) → Answer r) → Text → Type 0
Lacking answer start = (d : Text) → IsAbove start d → is_found (answer (stat (go_mod d))) ≡ false

further-Lacking :
    (answer : (r : Request) → Answer r) (start : Text)
    → is_found (answer (stat (go_mod start))) ≡ false
    → Lacking answer (dir start)
    → Lacking answer start
further-Lacking answer start e h d itself = e
further-Lacking answer start e h d (further a) = h d a

top-Lacking :
    (answer : (r : Request) → Answer r) (start : Text)
    → is_found (answer (stat (go_mod start))) ≡ false
    → dir start ≡ start
    → Lacking answer start
top-Lacking answer start e top d a = let same = top-IsAbove start d a top in rw same e

-- A directory above the start that holds go.mod, or the error that none of them does.
abbrev pub IsRoot : ((r : Request) → Answer r) → Text → Result Text → Type 0
IsRoot answer start r =
    ((d : Text) × (r ≡ ok d) × IsAbove start d × (is_found (answer (stat (go_mod d))) ≡ true))
    ⊎ ((r ≡ err (errorf "go.mod not found" [])) × Lacking answer start)

further-IsRoot :
    (answer : (r : Request) → Answer r) (start : Text) (r : Result Text)
    → is_found (answer (stat (go_mod start))) ≡ false
    → IsRoot answer (dir start) r
    → IsRoot answer start r
further-IsRoot answer start r absent (inl (d, e, above, there)) = inl (d, e, further above, there)
further-IsRoot answer start r absent (inr (e, lacking)) =
    inr (e, further-Lacking answer start absent lacking)

abbrev pub Ends : ((r : Request) → Answer r) → ℕ → Text → Type 0
Ends answer fuel start =
    (r : Result Text) × (run answer (find_repo_root fuel start) ≡ some r) × IsRoot answer start r

module _ (answer : (r : Request) → Answer r) where
  -- One round: it ends, or goes on with the directory above.
  round-Ends :
      (fuel : ℕ) (start : Text)
      → (dir start ≡ start) ⊎ Ends answer fuel (dir start)
      → Ends answer (suc fuel) start
  unfolding find_repo_root run
  round-Ends fuel start more = elim (Bool-cases (is_found (answer (stat (go_mod start))))) [
    | inl e ↦ (ok start, rw (e, run) refl, inl (start, refl, itself, e))
    | inr e ↦ elim (Bool-cases (text_eq (dir start) start)) [
      | inl same ↦ (
        err (errorf "go.mod not found" []),
        rw (e, same, run) refl,
        inr (refl, top-Lacking answer start e ((text_eq_iff (dir start) start).0 same)),
      )
      | inr differs ↦ elim more [
        | inl top ↦ absurd (ground (arith, differs, (text_eq_iff (dir start) start).1 top))
        | inr (r, ends, is) ↦ (r, rw (e, differs, run) ends, further-IsRoot answer start r e is)
      ]
    ]
  ]

  -- From a cleaned path with a root, one round for each name and one for the root are enough.
  clean-Ends :
      (fuel : ℕ) (start : Text)
      → rooted start ≡ true
      → clean start ≡ start
      → length (place start) < fuel
      → Ends answer fuel start
  clean-Ends zero start root plain enough = absurd (omega arith)
  clean-Ends (suc fuel) start root plain enough =
      round-Ends fuel start (elim (place-dir start root plain) [
        | inl top ↦ inl top
        | inr (n, e) ↦
            let shorter : length (place start) ≡ suc (length (place (dir start))) =
              ap (λ (st : List Text). length st) e in
            inr (
              clean-Ends fuel (dir start) (rooted-dir start root) (clean-dir start)
                (omega (arith, shorter, enough)))
      ])

  -- The search for the root of the repository ends: from a working directory with a root, with one round
  -- of fuel for it, one for each name on the way to the directory above it and one for the root of the
  -- file system, it returns, whatever the answers, with a directory above the start, or the start, that
  -- holds go.mod, or with the error that none of
  -- them does.
  pub find_repo_root-Ends :
      (fuel : ℕ) (start : Text)
      → rooted start ≡ true
      → length (place (dir start)) + 1 < fuel
      → Ends answer fuel start
  find_repo_root-Ends zero start root enough = absurd (omega arith)
  find_repo_root-Ends (suc fuel) start root enough =
      round-Ends fuel start
        (inr (clean-Ends fuel (dir start) (rooted-dir start root) (clean-dir start) (omega arith)))
