-- ===== src/Files/Laws.antt =====
-- Every request of a program satisfies `P` and every successful result `Q`, whatever the answers are
-- of which `Fair` holds.
use ovn_kubernetes_mcp.Prelude.{ap, ◌∷◌, ◌++◌, ◌≡◌, refl, List, Result, ok, err, String, All, wrap}
use ovn_kubernetes_mcp.Text.{Text}
use ovn_kubernetes_mcp.Files.{Request, Answer, leaf, ask, Program, ◌>>=◌, wrap_all, run, requests}

abbrev pub Satisfies : {A : Type 0} → (A → Type 0) → Result A → Type 0
Satisfies Q (ok a) = Q a
Satisfies Q (err e) = Unit

module _ (Fair : (r : Request) → Answer r → Type 0) (P : Request → Type 0) where
  abbrev pub Ensures : {A : Type 0} → (A → Type 0) → Program A → Type 0
  Ensures Q (leaf r) = Satisfies Q r
  Ensures Q (ask r k) = P r × ((a : Answer r) → Fair r a → Ensures Q (k a))

  pub Ensures-bind :
      {A B : Type 0} (Q : A → Type 0) (R : B → Type 0) (m : Program A) (f : A → Program B)
      → Ensures Q m
      → ((a : A) → Q a → Ensures R (f a))
      → Ensures R (m >>= f)
  unfolding ◌>>=◌
  Ensures-bind Q R (leaf (ok a)) f h k = k a h
  Ensures-bind Q R (leaf (err e)) f h k = tt
  Ensures-bind Q R (ask r g) f (p, h) k = (p, λ a fair. Ensures-bind Q R (g a) f (h a fair) k)

  -- A step that asks nothing hands on that it succeeded.
  pub Ensures-lift :
      {A B : Type 0} (R : B → Type 0) (r : Result A) (f : A → Program B)
      → ((a : A) → r ≡ ok a → Ensures R (f a))
      → Ensures R (leaf r >>= f)
  unfolding ◌>>=◌
  Ensures-lift R (ok a) f k = k a refl
  Ensures-lift R (err e) f k = tt

  pub Ensures-ask :
      {A B : Type 0} (R : B → Type 0) (r : Request) (g : Answer r → Program A) (f : A → Program B)
      → P r
      → ((a : Answer r) → Fair r a → Ensures R (g a >>= f))
      → Ensures R (ask r g >>= f)
  unfolding ◌>>=◌
  Ensures-ask R r g f p h = (p, h)

  pub Ensures-wrap_all :
      {A : Type 0} (Q : A → Type 0) (format : String) (args : List Text) (m : Program A)
      → Ensures Q m
      → Ensures Q (wrap_all format args m)
  unfolding wrap_all
  Ensures-wrap_all Q format args (leaf (ok a)) h = h
  Ensures-wrap_all Q format args (leaf (err e)) h = tt
  Ensures-wrap_all Q format args (ask r k) (p, h) =
      (p, λ a fair. Ensures-wrap_all Q format args (k a) (h a fair))

  pub Ensures-wrap :
      {A : Type 0} (Q : A → Type 0) (format : String) (args : List Text) (r : Result A)
      → Satisfies Q r
      → Satisfies Q (wrap format args r)
  Ensures-wrap Q format args (ok a) h = h
  Ensures-wrap Q format args (err e) h = tt

  pub Ensures-mono_result :
      {A : Type 0} (Q R : A → Type 0) (m : Program A)
      → ((a : A) → Q a → R a)
      → Ensures Q m
      → Ensures R m
  Ensures-mono_result Q R (leaf (ok a)) f h = f a h
  Ensures-mono_result Q R (leaf (err e)) f h = tt
  Ensures-mono_result Q R (ask r k) f (p, h) =
      (p, λ a fair. Ensures-mono_result Q R (k a) f (h a fair))

  -- The requests of every run satisfy what is ensured.
  pub Ensures-requests :
      {A : Type 0} (Q : A → Type 0) (answer : (r : Request) → Answer r) (m : Program A)
      → ((r : Request) → Fair r (answer r))
      → Ensures Q m
      → All P (requests answer m)
  unfolding requests
  Ensures-requests Q answer (leaf r) fair h = tt
  Ensures-requests Q answer (ask r k) fair (p, h) =
      (p, Ensures-requests Q answer (k (answer r)) fair (h (answer r) (fair r)))

pub Ensures-mono :
    (Fair : (r : Request) → Answer r → Type 0) (P P' : Request → Type 0) {A : Type 0}
    (Q : A → Type 0) (m : Program A)
    → ((r : Request) → P r → P' r)
    → Ensures Fair P Q m
    → Ensures Fair P' Q m
Ensures-mono Fair P P' Q (leaf r) f h = h
Ensures-mono Fair P P' Q (ask r k) f (p, h) =
    (f r p, λ a fair. Ensures-mono Fair P P' Q (k a) f (h a fair))

-- A run of two steps of which the first succeeds.
module _ (answer : (r : Request) → Answer r) where
  pub run->>= :
      {A B : Type 0} (m : Program A) (f : A → Program B) {a : A}
      → run answer m ≡ ok a
      → run answer (m >>= f) ≡ run answer (f a)
  unfolding run ◌>>=◌
  run->>= {A} {B} (leaf (ok b)) f e = ap (λ (r : Result A). run answer (leaf r >>= f)) e
  run->>= (leaf (err x)) f e = cc
  run->>= (ask r k) f e = run->>= (k (answer r)) f e

  pub requests->>= :
      {A B : Type 0} (m : Program A) (f : A → Program B) {a : A}
      → run answer m ≡ ok a
      → requests answer (m >>= f) ≡ requests answer m ++ requests answer (f a)
  unfolding run requests ◌>>=◌
  requests->>= {A} {B} (leaf (ok b)) f e = ap (λ (r : Result A). requests answer (leaf r >>= f)) e
  requests->>= (leaf (err x)) f e = cc
  requests->>= (ask r k) f e = ap (λ l. r ∷ l) (requests->>= (k (answer r)) f e)

  pub run-wrap_all :
      {A : Type 0} (format : String) (args : List Text) (m : Program A) {a : A}
      → run answer m ≡ ok a
      → run answer (wrap_all format args m) ≡ ok a
  unfolding run wrap_all
  run-wrap_all format args (leaf (ok b)) e = e
  run-wrap_all format args (leaf (err x)) e = cc
  run-wrap_all format args (ask r k) e = run-wrap_all format args (k (answer r)) e

  pub requests-wrap_all :
      {A : Type 0} (format : String) (args : List Text) (m : Program A)
      → requests answer (wrap_all format args m) ≡ requests answer m
  unfolding requests wrap_all
  requests-wrap_all format args (leaf r) = refl
  requests-wrap_all format args (ask r k) =
      ap (λ l. r ∷ l) (requests-wrap_all format args (k (answer r)))
