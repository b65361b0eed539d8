-- ===== src/Prelude/Results.antt =====
-- Go's `(value, error)` as a sum. An error is the format that built it and its arguments, unrendered.
use Prim.Native.Nat.{ℕ}
use Prim.Native.String.{String}
use mathlib.Core.Path.{◌≡◌, refl}
use mathlib.Core.Logic.{◌⊎◌, inl, inr}
use mathlib.Core.List.{List}
use mathlib.Core.Bool.{Bool, true, false}

-- `errorf` is `fmt.Errorf(format, args...)`; `wrapf` is one whose last verb is `%w`; `both_errors` is
-- `errors.Join` of two errors.
pub data Error : Type 0 where
  errorf : String → List (List ℕ) → Error
  wrapf : String → List (List ℕ) → Error → Error
  both_errors : Error → Error → Error

pub data Result {ℓ} (A : Type ℓ) : Type ℓ where
  ok : A → Result A
  err : Error → Result A

-- `if err != nil { return fmt.Errorf("...: %w", err) }`.
abbrev pub wrap {ℓ} : {A : Type ℓ} → String → List (List ℕ) → Result A → Result A
wrap format args (ok a) = ok a
wrap format args (err e) = err (wrapf format args e)

infixl 5 ◌>>=◌ ◌>>◌
abbrev pub ◌>>=◌ {ℓ κ} : {A : Type ℓ} {B : Type κ} → Result A → (A → Result B) → Result B
err e >>= next = err e
ok a >>= next = next a

abbrev pub ◌>>◌ {ℓ} : {B : Type ℓ} → Result (Unit {0}) → Result B → Result B
first >> next = first >>= λ done. next

-- `if bad { return errorf(...) }`.
abbrev pub reject_if : Bool → Error → Result (Unit {0})
reject_if true e = err e
reject_if false e = ok tt

pub Result-cases {ℓ} :
    {A : Type ℓ} (r : Result A) → ((a : A) × (r ≡ ok a)) ⊎ ((e : Error) × (r ≡ err e))
Result-cases (ok a) = inl (a, refl)
Result-cases (err e) = inr (e, refl)

pub wrap-eq-ok {ℓ} :
    {A : Type ℓ} (format : String) (args : List (List ℕ)) (r : Result A) {a : A}
    → wrap format args r ≡ ok a
    → r ≡ ok a
wrap-eq-ok format args (ok a) h = h
wrap-eq-ok format args (err e) h = cc

abbrev pub is_ok {ℓ} : {A : Type ℓ} → Result A → Bool
is_ok (ok a) = true
is_ok (err e) = false

-- A chain succeeds only if both of its steps do.
pub then-eq-ok {κ} :
    {B : Type κ} (m : Result (Unit {0})) (k : Result B) {b : B}
    → m >> k ≡ ok b
    → (m ≡ ok tt) × (k ≡ ok b)
then-eq-ok (ok tt) k h = (refl, h)
then-eq-ok (err e) k h = cc
