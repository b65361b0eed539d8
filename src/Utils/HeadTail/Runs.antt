-- ===== src/Utils/HeadTail/Runs.antt =====
-- Runs of consecutive lines: where `headLines` and `tailLines` of pkg/utils/headtail/head_tail.go cut.
use ovn_kubernetes_mcp.Prelude.{
  length-append, ◌+◌, All-right, All-left, All, ℕ, ◌-◌, ◌≡◌, refl, min, List, [], ◌∷◌, ◌++◌, leb,
  arith, if◌then◌else◌, length, take, drop, length-take, Bool-cases, inl, inr, ap, length-drop,
  take-append-drop, append-nil, append_assoc, sym, ◌∙◌,
}
use ovn_kubernetes_mcp.Prelude.Int.{ℤ, pos_part}
use ovn_kubernetes_mcp.Text.{Text}
use ovn_kubernetes_mcp.Utils.HeadTail.{HeadTailParams, keeps_all, head_lines, tail_lines}

-- The lines that a limit leaves of `k`: a limit that is not positive leaves them all.
abbrev pub limited : ℤ → ℕ → ℕ
limited n k = if leb (pos_part n) 0 then k else min (pos_part n) k

pub length-head_lines :
    (lines : List Text) (n : ℤ) → length (head_lines lines n) ≡ limited n (length lines)
unfolding head_lines
length-head_lines [] n = ground arith
length-head_lines (l ∷ ls) n = ground (arith, length-take (pos_part n) (l ∷ ls))

pub length-tail_lines :
    (lines : List Text) (n : ℤ) → length (tail_lines lines n) ≡ limited n (length lines)
unfolding tail_lines
length-tail_lines [] n = ground arith
length-tail_lines (l ∷ ls) n = ground (arith, length-drop (length (l ∷ ls) - pos_part n) (l ∷ ls))

-- `part` is the run of `count` consecutive lines of `lines` behind the first `from`.
pub record IsRun (from count : ℕ) (part lines : List Text) : Type 0 where
  pub before : List Text
  pub behind : List Text
  pub whole : lines ≡ before ++ (part ++ behind)
  pub starts : length before ≡ from
  pub counted : length part ≡ count

head_lines_rest :
    (lines : List Text) (n : ℤ) → (rest : List Text) × (lines ≡ head_lines lines n ++ rest)
unfolding head_lines
head_lines_rest [] n = ([], refl)
head_lines_rest (l ∷ ls) n = elim (Bool-cases (keeps_all n (l ∷ ls))) [
  | inl e ↦ ([], rw (e, append-nil) refl)
  | inr e ↦ (drop (pos_part n) (l ∷ ls), rw e (sym (take-append-drop (pos_part n) (l ∷ ls))))
]

tail_lines_rest :
    (lines : List Text) (n : ℤ) → (rest : List Text) × (lines ≡ rest ++ tail_lines lines n)
unfolding tail_lines
tail_lines_rest [] n = ([], refl)
tail_lines_rest (l ∷ ls) n = elim (Bool-cases (keeps_all n (l ∷ ls))) [
  | inl e ↦ ([], rw e)
  | inr e ↦ (
    take (length (l ∷ ls) - pos_part n) (l ∷ ls),
    rw e (sym (take-append-drop (length (l ∷ ls) - pos_part n) (l ∷ ls))),
  )
]

pub head_lines-IsRun :
    (lines : List Text) (n : ℤ) → IsRun 0 (limited n (length lines)) (head_lines lines n) lines
head_lines-IsRun lines n =
    let (rest, e) = head_lines_rest lines n in
    record {
      before = [];
      behind = rest;
      whole = e;
      starts = refl;
      counted = length-head_lines lines n;
    }

pub tail_lines-IsRun :
    (lines : List Text) (n : ℤ)
    → IsRun
        (length lines - limited n (length lines))
        (limited n (length lines))
        (tail_lines lines n)
        lines
tail_lines-IsRun lines n =
    let (rest, e) = tail_lines_rest lines n in
    let total : length lines ≡ length rest + limited n (length lines) =
      ap (λ (t : List Text). length t) e
      ∙ length-append rest (tail_lines lines n)
      ∙ ap (λ k. length rest + k) (length-tail_lines lines n) in
    record {
      before = rest;
      behind = [];
      whole = simp append-nil e;
      starts = omega arith;
      counted = length-tail_lines lines n;
    }

-- A run of a run.
pub IsRun-IsRun :
    {from count from' count' : ℕ} {part middle lines : List Text}
    → IsRun from count middle lines
    → IsRun from' count' part middle
    → IsRun (from + from') count' part lines
IsRun-IsRun {part} r q = record {
  before = r.before ++ q.before;
  behind = q.behind ++ r.behind;
  whole =
      r.whole
      ∙ ap (λ (t : List Text). r.before ++ (t ++ r.behind)) q.whole
      ∙ simp (append_assoc) refl;
  starts = omega (arith, length-append r.before q.before, r.starts, q.starts);
  counted = q.counted;
}

pub IsRun-recount :
    {from count from' count' : ℕ} {part lines : List Text}
    → from ≡ from'
    → count ≡ count'
    → IsRun from count part lines
    → IsRun from' count' part lines
IsRun-recount e e' r = rw (← e, ← e') r

pub tail_of_head :
    (h : HeadTailParams) (lines : List Text)
    → IsRun
        (limited h.head (length lines) - limited h.tail (limited h.head (length lines)))
        (limited h.tail (limited h.head (length lines)))
        (tail_lines (head_lines lines h.head) h.tail)
        lines
tail_of_head h lines =
    let k = length-head_lines lines h.head in
    IsRun-recount (omega (arith, ap (λ n. n - limited h.tail n) k)) (rw k refl) (
      IsRun-IsRun (head_lines-IsRun lines h.head)
        (tail_lines-IsRun (head_lines lines h.head) h.tail))

pub head_of_tail :
    (h : HeadTailParams) (lines : List Text)
    → IsRun
        (length lines - limited h.tail (length lines))
        (limited h.head (limited h.tail (length lines)))
        (head_lines (tail_lines lines h.tail) h.head)
        lines
head_of_tail h lines =
    let k = length-tail_lines lines h.tail in
    IsRun-recount (omega arith) (rw k refl) (
      IsRun-IsRun (tail_lines-IsRun lines h.tail)
        (head_lines-IsRun (tail_lines lines h.tail) h.head))

-- What holds of all lines holds of those in a window of them.
pub window-All :
    (P : Text → Type 0) {from count : ℕ} {part lines : List Text}
    → IsRun from count part lines
    → All P lines
    → All P part
window-All P {part} w h = All-left P part w.behind (All-right P w.before _ (rw w.whole at h))
