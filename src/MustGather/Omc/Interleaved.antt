-- ===== src/MustGather/Omc/Interleaved.antt =====
-- Calls of the client of pkg/must-gather/omc-client at the same time. `omc use` writes the selected
-- must-gather where every later `omc` reads it, so the lock is what keeps a call's command on the
-- must-gather that the call selected.
use ovn_kubernetes_mcp.Prelude.{
  ℕ, ◌==◌, ◌≡◌, ◌≢◌, ◌⊎◌, sym, ap, ◌∙◌, refl, Bool-cases, inl, inr, List, [], ◌∷◌, Option, none,
  some, All, if◌then◌else◌, arith,
}
use ovn_kubernetes_mcp.Text.{Text}
use ovn_kubernetes_mcp.MustGather.Omc.{Session}

-- Where a call is: before the lock, holding it, behind `useMustGather`, or done.
pub data Stage : Type 0 where
  waiting : Stage
  holding : Stage
  selected : Stage
  finished : Stage

-- A command that ran: the call it belongs to, the must-gather that was selected, and its arguments.
pub record Ran : Type 0 where
  pub caller : ℕ
  pub must_gather : Option Text
  pub args : List Text

-- The lock with the call that holds it, the must-gather that `omc` has selected, the stage of each
-- call, and the commands that ran.
pub record World : Type 0 where
  pub lock : Option ℕ
  pub current : Option Text
  pub stage : ℕ → Stage
  pub log : List Ran

abbrev pub update : (ℕ → Stage) → ℕ → Stage → ℕ → Stage
update f i s j = if j == i then s else f j

update-cases :
    (f : ℕ → Stage) (i : ℕ) (s : Stage) (j : ℕ)
    → ((j ≡ i) × (update f i s j ≡ s)) ⊎ ((j ≢ i) × (update f i s j ≡ f j))
update-cases f i s j = elim (Bool-cases (j == i)) [
  | inl e ↦ inl (ground arith, rw e)
  | inr e ↦ inr (ground arith, rw e)
]

some-injective : {i j : ℕ} → some i ≡ some j → i ≡ j
some-injective e = cc

some-not-none : {i : ℕ} → some i ≡ none → ⊥
some-not-none e = cc

module _ (sessions : ℕ → Session) where
  pub data Step (w : World) : World → Type 0 where
    acquires :
        (i : ℕ)
        → w.lock ≡ none
        → w.stage i ≡ waiting
        → Step w (record w { lock = some i; stage = update w.stage i holding })
    selects :
        (i : ℕ)
        → w.stage i ≡ holding
        → Step w (record w { current = some (sessions i).path; stage = update w.stage i selected })
    -- The path is refused or `omc use` fails, which may leave any must-gather selected.
    fails :
        (i : ℕ) (left : Option Text)
        → w.stage i ≡ holding
        → Step w (record w { lock = none; current = left; stage = update w.stage i finished })
    runs :
        (i : ℕ)
        → w.stage i ≡ selected
        → Step w (record w {
          lock = none;
          stage = update w.stage i finished;
          log = record { caller = i; must_gather = w.current; args = (sessions i).args } ∷ w.log;
        })

  -- The worlds that steps lead to from one in which no call has begun.
  pub data Reachable : World → Type 0 where
    starts :
        (current : Option Text)
        → Reachable (record { lock = none; current = current; stage = λ i. waiting; log = [] })
    steps : {v w : World} → Reachable v → Step v w → Reachable w

  -- A command that ran on the must-gather of its call, with the call's arguments.
  abbrev pub IsFaithful : Ran → Type 0
  IsFaithful r =
      (r.must_gather ≡ some (sessions r.caller).path) × (r.args ≡ (sessions r.caller).args)

  -- A call between its acquisition and its release holds the lock, and behind its selection the selected
  -- must-gather is its own.
  record IsGuarded (w : World) : Type 0 where
    holds : (i : ℕ) → w.stage i ≡ holding → w.lock ≡ some i
    keeps :
        (i : ℕ) → w.stage i ≡ selected → (w.lock ≡ some i) × (w.current ≡ some (sessions i).path)
    faithful : All IsFaithful w.log

  -- Only the holder of the lock is between its acquisition and its release.
  other_idle :
      {w : World} (g : IsGuarded w) (i j : ℕ)
      → w.lock ≡ some i
      → j ≢ i
      → (w.stage j ≢ holding) × (w.stage j ≢ selected)
  other_idle g i j l ne = (
    λ h. ne (some-injective (sym (g.holds j h) ∙ l)),
    λ h. ne (some-injective (sym (g.keeps j h).0 ∙ l)),
  )

  -- A call that releases the lock.
  released-IsGuarded :
      {w : World} (g : IsGuarded w) (i : ℕ) (left : Option Text) (log : List Ran)
      → w.lock ≡ some i
      → All IsFaithful log
      → IsGuarded
          (record { lock = none; current = left; stage = update w.stage i finished; log = log })
  released-IsGuarded {w} g i left log l a = record {
    holds = λ j h. elim (update-cases w.stage i finished j) [
      | inl (e, f) ↦ cc
      | inr (ne, f) ↦ absurd ((other_idle g i j l ne).0 (sym f ∙ h))
    ];
    keeps = λ j h. elim (update-cases w.stage i finished j) [
      | inl (e, f) ↦ cc
      | inr (ne, f) ↦ absurd ((other_idle g i j l ne).1 (sym f ∙ h))
    ];
    faithful = a;
  }

  Step-IsGuarded : {v w : World} → Step v w → IsGuarded v → IsGuarded w
  Step-IsGuarded {v} (acquires i free e) g = record {
    holds = λ j h. elim (update-cases v.stage i holding j) [
      | inl (e, f) ↦ ap some (sym e)
      | inr (ne, f) ↦ absurd (some-not-none (sym (g.holds j (sym f ∙ h)) ∙ free))
    ];
    keeps = λ j h. elim (update-cases v.stage i holding j) [
      | inl (e, f) ↦ cc
      | inr (ne, f) ↦ absurd (some-not-none (sym (g.keeps j (sym f ∙ h)).0 ∙ free))
    ];
    faithful = g.faithful;
  }
  Step-IsGuarded {v} (selects i e) g = record {
    holds = λ j h. elim (update-cases v.stage i selected j) [
      | inl (e, f) ↦ cc
      | inr (ne, f) ↦ g.holds j (sym f ∙ h)
    ];
    keeps = λ j h. elim (update-cases v.stage i selected j) [
      | inl (same, f) ↦ rw same (g.holds i e, refl)
      | inr (ne, f) ↦ absurd ((other_idle g i j (g.holds i e) ne).1 (sym f ∙ h))
    ];
    faithful = g.faithful;
  }
  Step-IsGuarded (fails i left e) g = released-IsGuarded g i left _ (g.holds i e) g.faithful
  Step-IsGuarded (runs i e) g =
      released-IsGuarded g i _ _ (g.keeps i e).0 (((g.keeps i e).1, refl), g.faithful)

  Reachable-IsGuarded : {w : World} → Reachable w → IsGuarded w
  Reachable-IsGuarded (starts current) = record {
    holds = λ i h. cc;
    keeps = λ i h. cc;
    faithful = tt;
  }
  Reachable-IsGuarded (steps r s) = Step-IsGuarded s (Reachable-IsGuarded r)

  -- However the calls interleave, whatever fails and whatever a failure leaves selected, every command that
  -- ran has run on the must-gather of its call and with the call's arguments.
  pub log-IsFaithful : {w : World} → Reachable w → All IsFaithful w.log
  log-IsFaithful r = (Reachable-IsGuarded r).faithful
