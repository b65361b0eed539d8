-- ===== src/Utils/HeadTail/Laws.antt =====
-- What `Apply` returns: a run of consecutive lines, and how many.
use ovn_kubernetes_mcp.Utils.HeadTail.Runs.{
  tail_of_head, head_of_tail, tail_lines-IsRun, IsRun-recount, length-tail_lines, length-head_lines,
  limited, IsRun, head_lines-IsRun,
}
use ovn_kubernetes_mcp.Prelude.{
  ◌||◌, ◌≤◌, ℕ, ◌-◌, ◌≡◌, refl, true, false, ◌&&◌, List, arith, if◌then◌else◌, length, Bool-cases,
  inl, inr, ap,
}
use ovn_kubernetes_mcp.Prelude.Int.{negsuc, ℤ, pos, is_zero, pos_part}
use ovn_kubernetes_mcp.Text.{Text}
use ovn_kubernetes_mcp.Utils.HeadTail.{HeadTailParams, head_lines, tail_lines, apply}

-- The number of lines that the parameters allow, in whichever order the two limits are applied.
abbrev pub budget : HeadTailParams → ℕ → ℕ → ℕ
budget h default_max_lines k =
    if is_zero h.head && is_zero h.tail
    then limited (pos default_max_lines) k
    else limited h.head (limited h.tail k)

limited_comm : (a b : ℤ) (k : ℕ) → limited a (limited b k) ≡ limited b (limited a k)
limited_comm a b k = ground arith

-- The number of lines that are returned is the budget: it does not depend on which of the two limits
-- is applied first, and a negative limit limits nothing.
pub length-apply :
    (h : HeadTailParams) (lines : List Text) (d : ℕ)
    → length (apply h lines d) ≡ budget h d (length lines)
unfolding apply
length-apply h lines d = ground (
  arith,
  length-head_lines lines (pos d),
  length-head_lines lines h.head,
  length-tail_lines lines h.tail,
  length-head_lines (tail_lines lines h.tail) h.head,
  length-tail_lines (head_lines lines h.head) h.tail,
)

-- Where the lines that are returned start, of `k`: a tail counts from the end of what it is applied to,
-- which is all lines, or those that the head left.
abbrev pub start : HeadTailParams → ℕ → ℕ
start h k =
    if is_zero h.tail
    then 0
    else if is_zero h.head || h.apply_tail_first
    then k - limited h.tail k
    else limited h.head k - limited h.tail (limited h.head k)

abbrev pub IsWindow : HeadTailParams → ℕ → List Text → List Text → Type 0
IsWindow h d part lines = IsRun (start h (length lines)) (budget h d (length lines)) part lines

limited_zero : (n : ℤ) (k : ℕ) → is_zero n ≡ true → k ≡ limited n k
limited_zero (pos ℕ.zero) k z = refl
limited_zero (pos (ℕ.suc n)) k z = cc
limited_zero (negsuc n) k z = cc

-- What is returned is a run of consecutive lines, in order, whose place and number are exact. Without
-- head and tail it is the first `d` lines, with a head alone the first `head` lines, with a tail alone
-- the last `tail` lines. With both it is the first `head` lines of the last `tail`, or the last `tail`
-- lines of the first `head`, as `apply_tail_first` says. A limit that is not positive, or more than there
-- are lines, keeps them all.
pub apply-IsWindow :
    (h : HeadTailParams) (lines : List Text) (d : ℕ) → IsWindow h d (apply h lines d) lines
unfolding apply
apply-IsWindow h lines d = elim (Bool-cases (is_zero h.head)) [
  | inl zh ↦ elim (Bool-cases (is_zero h.tail)) [
    | inl zt ↦ simp (zh, zt) (head_lines-IsRun lines (pos d))
    | inr zt ↦
        simp (zh, zt)
          (IsRun-recount refl (limited_zero h.head (limited h.tail (length lines)) zh)
            (tail_lines-IsRun lines h.tail))
  ]
  | inr zh ↦ elim (Bool-cases (is_zero h.tail)) [
    | inl zt ↦
        simp (zh, zt)
          (IsRun-recount refl (ap (limited h.head) (limited_zero h.tail (length lines) zt))
            (head_lines-IsRun lines h.head))
    | inr zt ↦ elim (Bool-cases h.apply_tail_first) [
      | inl f ↦ simp (zh, zt, f) (head_of_tail h lines)
      | inr f ↦
          simp (zh, zt, f)
            (IsRun-recount refl (limited_comm h.tail h.head (length lines)) (tail_of_head h lines))
    ]
  ]
]

-- The limits that a number of lines obeys: those of head and tail that are set and positive, or the
-- default when neither is set.
pub record Within (h : HeadTailParams) (d k : ℕ) : Type 0 where
  pub by_head : 1 ≤ pos_part h.head → k ≤ pos_part h.head
  pub by_tail : 1 ≤ pos_part h.tail → k ≤ pos_part h.tail
  pub by_default : is_zero h.head ≡ true → is_zero h.tail ≡ true → 1 ≤ d → k ≤ d

limited_at_most : (n : ℤ) (k : ℕ) → 1 ≤ pos_part n → limited n k ≤ pos_part n
limited_at_most n k h = ground arith

limited_below : (n : ℤ) (k m : ℕ) → k ≤ m → limited n k ≤ m
limited_below n k m h = ground arith

not_zero : (n : ℤ) → 1 ≤ pos_part n → is_zero n ≡ false
not_zero (pos ℕ.zero) h = absurd (omega arith)
not_zero (pos (ℕ.suc n)) h = refl
not_zero (negsuc n) h = refl

budget-Within : (h : HeadTailParams) (d k : ℕ) → Within h d (budget h d k)
budget-Within h d k = record {
  by_head = λ p. rw (not_zero h.head p) (limited_at_most h.head (limited h.tail k) p);
  by_tail = λ p. rw (not_zero h.tail p) (elim (Bool-cases (is_zero h.head)) [
    | inl z ↦ rw z (limited_below h.head (limited h.tail k) _ (limited_at_most h.tail k p))
    | inr z ↦ rw z (limited_below h.head (limited h.tail k) _ (limited_at_most h.tail k p))
  ]);
  by_default = λ a b p. rw (a, b) (limited_at_most (pos d) k p);
}

-- No more lines are returned than a positive head or tail allows, and than the default allows when
-- neither is set.
pub apply-Within :
    (h : HeadTailParams) (lines : List Text) (d : ℕ) → Within h d (length (apply h lines d))
apply-Within h lines d = rw (length-apply h lines d) (budget-Within h d (length lines))
