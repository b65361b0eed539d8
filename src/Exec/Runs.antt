-- ===== src/Exec/Runs.antt =====
-- Runs of handlers step by step, against a cluster that answers.
use ovn_kubernetes_mcp.Prelude.{ap, ◌≡◌, none, List, refl, [], Result, ok, err, wrap, String}
use ovn_kubernetes_mcp.Text.{Text}
use ovn_kubernetes_mcp.Exec.{done, ◌>>◌, Call, Reply, ret, call, M, ◌>>=◌, attempt, wrap_all, run}

-- No call fails, and none writes to its standard error.
abbrev pub IsHealthy : (Call → Reply) → Type 0
IsHealthy answer = (c : Call) → ((answer c).error ≡ none) × ((answer c).stderr ≡ [])

module _ {A B : Type 0} (answer : Call → Reply) where
  pub run->>= :
      (m : M A) (f : A → M B) {a : A}
      → run answer m ≡ ok a
      → run answer (m >>= f) ≡ run answer (f a)
  unfolding run ◌>>=◌
  run->>= (ret (ok b)) f e = ap (λ (r : Result A). run answer (ret r >>= f)) e
  run->>= (ret (err x)) f e = cc
  run->>= (call c k) f e = run->>= (k (answer c)) f e

  -- The result of the first step of a run that succeeds.
  pub run->>=-eq-ok :
      (m : M A) (f : A → M B) (b : B)
      → run answer (m >>= f) ≡ ok b
      → (a : A) × (run answer m ≡ ok a) × (run answer (f a) ≡ ok b)
  unfolding run ◌>>=◌
  run->>=-eq-ok (ret (ok a)) f b e = (a, refl, e)
  run->>=-eq-ok (ret (err x)) f b e = cc
  run->>=-eq-ok (call c k) f b e = run->>=-eq-ok (k (answer c)) f b e

module _ {A : Type 0} (answer : Call → Reply) where
  pub run-wrap_all :
      (format : String) (args : List Text) (m : M A)
      → run answer (wrap_all format args m) ≡ wrap format args (run answer m)
  unfolding run wrap_all
  run-wrap_all format args (ret (ok a)) = refl
  run-wrap_all format args (ret (err e)) = refl
  run-wrap_all format args (call c k) = run-wrap_all format args (k (answer c))

  pub run-attempt : (m : M A) → run answer (attempt m) ≡ ok (run answer m)
  unfolding run attempt
  run-attempt (ret r) = refl
  run-attempt (call c k) = run-attempt (k (answer c))

  -- A check that passes before the result.
  pub run-done : (a : A) → run answer (ret (ok tt) >> done a) ≡ ok a
  unfolding run ◌>>=◌
  run-done a = refl
