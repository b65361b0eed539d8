-- ===== src/Utils/Timeout.antt =====
-- pkg/utils/timeout/timeout.go. A `time.Duration` is an int64 count of nanoseconds.
pub mod Laws
use ovn_kubernetes_mcp.Prelude.{
  ℕ, ◌-◌, ◌*◌, ◌%◌, ◌^◌, ◌≡◌, ◌<◌, min, arith, ltb, leb, ◌==◌, if◌then◌else◌,
}
use ovn_kubernetes_mcp.Prelude.Int.{ℤ, pos, negsuc}
use ovn_kubernetes_mcp.Exec.{Context, context_with_timeout}

abbrev pub second : ℕ
second = 1_000_000_000

-- `MaxTimeout`, 300 seconds.
abbrev pub max_timeout : ℕ
max_timeout = 300 * second

-- The int64 with the low 64 bits of `n`.
abbrev pub int64 : ℕ → ℤ
int64 n = if ltb (n % 2 ^ 64) (2 ^ 63) then pos (n % 2 ^ 64) else negsuc (2 ^ 64 - 1 - n % 2 ^ 64)

abbrev pub min_ℤ : ℤ → ℤ → ℤ
min_ℤ (pos a) (pos b) = pos (min a b)
min_ℤ (pos a) (negsuc b) = negsuc b
min_ℤ (negsuc a) (pos b) = negsuc a
min_ℤ (negsuc a) (negsuc b) = if leb b a then negsuc a else negsuc b

-- `TimeoutSeconds` is a uint32.
pub record TimeoutParams : Type 0 where
  pub timeout_seconds : ℕ

unfoldable pub to_duration : TimeoutParams → ℤ
to_duration t = min_ℤ (int64 (t.timeout_seconds * second)) (pos max_timeout)

unfoldable pub with_timeout : ℕ → TimeoutParams → Context → Context
with_timeout now t ctx =
    if t.timeout_seconds == 0 then ctx else context_with_timeout now ctx (to_duration t)
