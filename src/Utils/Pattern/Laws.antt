-- ===== src/Utils/Pattern/Laws.antt =====
-- What `ExecuteWithMatch` returns, and when it runs its function.
use ovn_kubernetes_mcp.Utils.Pattern.{PatternParams, Regexp, execute_with_match}
use ovn_kubernetes_mcp.Prelude.{
  ap, wrap, Result, refl, All-keep, All-keep_of, All, Selection-keep, Selection, wrap-eq-ok, wrapf,
  errorf, inr, inl, false, Bool-cases, ok, ◌⊎◌, err, ◌∷◌, ◌≢◌, [], keep, true, Bool, is_empty,
  Error, ◌≡◌, List,
}
use ovn_kubernetes_mcp.Exec.{call, done, ret, calls, Reply, run, ◌>>=◌, fail, Call, M}
use ovn_kubernetes_mcp.Text.{Text}
use ovn_kubernetes_mcp.Exec.Laws.{Ensures-mono-result, Ensures, Ensures-bind, Ensures-lift}

-- `m` is `f` with the lines of its result that do not pass `test` left out: against every answer it makes
-- the calls of `f`, fails as `f` fails, and otherwise returns the lines of `f` that pass, in order.
pub data IsFiltered (test : Text → Bool) (found : Result (List Text))
    : Result (List Text) → Type 0 where
  failed : (e : Error) → found ≡ err e → IsFiltered test found (err e)
  filtered :
      (lines kept : List Text)
      → found ≡ ok lines
      → Selection (λ l. test l ≡ true) kept lines
      → IsFiltered test found (ok kept)

abbrev pub Filters : (Text → Bool) → M (List Text) → M (List Text) → Type 0
Filters test f m =
    (answer : Call → Reply)
    → (calls answer m ≡ calls answer f) × IsFiltered test (run answer f) (run answer m)

-- What `ExecuteWithMatch` makes of the function `f`.
pub data Matches (compile : Regexp) (p : PatternParams) (f : M (List Text))
    : Bool → M (List Text) → Type 0 where
  no_pattern : (allow : Bool) → p.pattern ≡ [] → Matches compile p f allow f
  not_allowed :
      p.pattern ≢ []
      → Matches compile p f false (
          fail (
            errorf "pattern matching is not supported in this mode (got pattern %q)"
              (p.pattern ∷ [])))
  not_compiled :
      (e : Error)
      → p.pattern ≢ []
      → compile p.pattern ≡ err e
      → Matches compile p f true (fail (wrapf "invalid search pattern %q: %w" (p.pattern ∷ []) e))
  matched :
      (test : Text → Bool) (m : M (List Text))
      → p.pattern ≢ []
      → compile p.pattern ≡ ok test
      → Filters test f m
      → Matches compile p f true m

filters :
    (test : Text → Bool) (f : M (List Text))
    → Filters test f (f >>= λ lines. done (keep test lines))
unfolding ◌>>=◌ run calls
filters test (ret (ok lines)) answer = (
  refl,
  filtered lines (keep test lines) refl (Selection-keep _ test lines (λ l. (λ e. e, λ e. e))),
)
filters test (ret (err e)) answer = (refl, failed e refl)
filters test (call c k) answer =
    let (same, result) = filters test (k (answer c)) answer in (ap (λ cs. c ∷ cs) same, result)

Matches-compiled :
    (compile : Regexp) (p : PatternParams) (f : M (List Text)) (r : Result (Text → Bool))
    → p.pattern ≢ []
    → compile p.pattern ≡ r
    → Matches compile p f true (do
      search_pattern ← ret (wrap "invalid search pattern %q: %w" (p.pattern ∷ []) r)
      lines ← f
      done (keep search_pattern lines))
unfolding ◌>>=◌
Matches-compiled compile p f (ok test) h e = matched test _ h e (filters test f)
Matches-compiled compile p f (err x) h e = not_compiled x h e

pattern_cases : (t : Text) → ((is_empty t ≡ true) × (t ≡ [])) ⊎ ((is_empty t ≡ false) × (t ≢ []))
pattern_cases [] = inl (refl, refl)
pattern_cases (c ∷ s) = inr (refl, λ e. cc)

-- An empty pattern leaves the function as it is. Another pattern is refused where matching is not allowed,
-- and where it is allowed but does not compile, in both cases without a call. A pattern that compiles to
-- a test leaves the calls of the function and its errors as they are, and of its lines exactly those
-- that pass, in order, whatever the calls are answered.
pub execute_with_match-Matches :
    (compile : Regexp) (p : PatternParams) (f : M (List Text)) (allow : Bool)
    → Matches compile p f allow (execute_with_match compile p f allow)
unfolding execute_with_match
execute_with_match-Matches compile p f true = elim (pattern_cases p.pattern) [
  | inl (e, h) ↦ rw e (no_pattern true h)
  | inr (e, h) ↦ rw e (Matches-compiled compile p f (compile p.pattern) h refl)
]
execute_with_match-Matches compile p f false = elim (pattern_cases p.pattern) [
  | inl (e, h) ↦ rw e (no_pattern false h)
  | inr (e, h) ↦ rw e (not_allowed h)
]

-- The lines match the pattern, where there is one.
abbrev pub MatchesAll : Regexp → PatternParams → List Text → Type 0
MatchesAll compile p lines =
    (is_empty p.pattern ≡ true)
    ⊎ ((test : Text → Bool) × (compile p.pattern ≡ ok test) × All (λ l. test l ≡ true) lines)

-- What holds of every line of the function holds of the lines that are returned, which match.
pub execute_with_match-All :
    (compile : Regexp) (p : PatternParams) (P : Call → Type 0) (R : Text → Type 0)
    (f : M (List Text)) (allow : Bool)
    → Ensures P (All R) f
    → Ensures P
        (λ lines. All R lines × MatchesAll compile p lines)
        (execute_with_match compile p f allow)
unfolding execute_with_match
execute_with_match-All compile p P R f true h = elim (Bool-cases (is_empty p.pattern)) [
  | inl e ↦ rw e (Ensures-mono-result P (λ _ k. (k, inl λ i. true)) f h)
  | inr e ↦ rw e (
      Ensures-lift P _ _ _ λ test compiled. Ensures-bind P _ _ (All R) f h λ lines k.
        (All-keep_of R test lines k, inr (test, wrap-eq-ok _ _ _ compiled, All-keep test lines)))
]
execute_with_match-All compile p P R f false h = elim (Bool-cases (is_empty p.pattern)) [
  | inl e ↦ rw e (Ensures-mono-result P (λ _ k. (k, inl λ i. true)) f h)
  | inr e ↦ rw e tt
]
