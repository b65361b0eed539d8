-- ===== src/Exec/Laws.antt =====
-- Reasoning about handlers: every call satisfies `P` and every successful result `Q`, whatever the
-- cluster answers.
use ovn_kubernetes_mcp.Prelude.{◌≡◌, refl, List, Result, ok, err, String, All}
use ovn_kubernetes_mcp.Text.{Text}
use ovn_kubernetes_mcp.Exec.{issue, Call, Reply, ret, call, M, ◌>>=◌, attempt, wrap_all, calls}

abbrev pub Satisfies : {A : Type 0} → (A → Type 0) → Result A → Type 0
Satisfies Q (ok a) = Q a
Satisfies Q (err e) = Unit

abbrev pub Ensures : {A : Type 0} → (Call → Type 0) → (A → Type 0) → M A → Type 0
Ensures P Q (ret r) = Satisfies Q r
Ensures P Q (call c k) = P c × ((r : Reply) → Ensures P Q (k r))

-- Nothing is asked of the result.
abbrev pub Anything : {A : Type 0} → A → Type 0
Anything a = Unit

module _ {A B : Type 0} (P : Call → Type 0) (R : B → Type 0) (f : A → M B) where
  pub Ensures-bind :
      (Q : A → Type 0) (m : M A)
      → Ensures P Q m
      → ((a : A) → Q a → Ensures P R (f a))
      → Ensures P R (m >>= f)
  unfolding ◌>>=◌
  Ensures-bind Q (ret (ok a)) h k = k a h
  Ensures-bind Q (ret (err e)) h k = tt
  Ensures-bind Q (call c g) (p, h) k = (p, λ r. Ensures-bind Q (g r) (h r) k)

  -- A step that makes no call hands on that it succeeded.
  pub Ensures-lift :
      (r : Result A) → ((a : A) → r ≡ ok a → Ensures P R (f a)) → Ensures P R (ret r >>= f)
  unfolding ◌>>=◌
  Ensures-lift (ok a) k = k a refl
  Ensures-lift (err e) k = tt

  -- A call and what follows each answer.
  pub Ensures-call :
      (c : Call) (g : Reply → M A)
      → P c
      → ((r : Reply) → Ensures P R (g r >>= f))
      → Ensures P R (call c g >>= f)
  unfolding ◌>>=◌
  Ensures-call c g p h = (p, h)

module _ {A : Type 0} (P : Call → Type 0) {Q R : A → Type 0} where
  pub Ensures-mono-result : ((a : A) → Q a → R a) → (m : M A) → Ensures P Q m → Ensures P R m
  Ensures-mono-result f (ret (ok a)) h = f a h
  Ensures-mono-result f (ret (err e)) h = tt
  Ensures-mono-result f (call c k) (p, h) = (p, λ r. Ensures-mono-result f (k r) (h r))

module _ {A : Type 0} (P : Call → Type 0) where
  pub Ensures-attempt :
      (Q : A → Type 0) (m : M A) → Ensures P Q m → Ensures P (Satisfies Q) (attempt m)
  unfolding attempt
  Ensures-attempt Q (ret r) h = h
  Ensures-attempt Q (call c k) (p, h) = (p, λ r. Ensures-attempt Q (k r) (h r))

  pub Ensures-wrap_all :
      (Q : A → Type 0) (format : String) (args : List Text) (m : M A)
      → Ensures P Q m
      → Ensures P Q (wrap_all format args m)
  unfolding wrap_all
  Ensures-wrap_all Q format args (ret (ok a)) h = h
  Ensures-wrap_all Q format args (ret (err e)) h = tt
  Ensures-wrap_all Q format args (call c k) (p, h) =
      (p, λ r. Ensures-wrap_all Q format args (k r) (h r))

  -- The calls of every run satisfy what is ensured.
  pub Ensures-calls :
      (Q : A → Type 0) (answer : Call → Reply) (m : M A) → Ensures P Q m → All P (calls answer m)
  unfolding calls
  Ensures-calls Q answer (ret r) h = tt
  Ensures-calls Q answer (call c k) (p, h) =
      (p, Ensures-calls Q answer (k (answer c)) (h (answer c)))

  pub Ensures-mono :
      (P' : Call → Type 0) (Q : A → Type 0) (m : M A)
      → ((c : Call) → P c → P' c)
      → Ensures P Q m
      → Ensures P' Q m
  Ensures-mono P' Q (ret r) f h = h
  Ensures-mono P' Q (call c k) f (p, h) = (f c p, λ r. Ensures-mono P' Q (k r) f (h r))

-- A single call.
pub Ensures-issue :
    {B : Type 0} (P : Call → Type 0) (R : B → Type 0) (f : Reply → M B) (c : Call)
    → P c
    → ((r : Reply) → Ensures P R (f r))
    → Ensures P R (issue c >>= f)
unfolding ◌>>=◌
Ensures-issue P R f c p h = (p, h)

pub Satisfies-Anything : {A : Type 0} (r : Result A) → Satisfies Anything r
Satisfies-Anything (ok a) = tt
Satisfies-Anything (err e) = tt
