-- ===== src/Sync/Spin/Progress.antt =====
-- What a holder of the lock of os/src/sync/spin.rs relies on, and what a hart that waits can hope for.
use hj.Base.{
  ℕ, zero, suc, ◌<◌, ◌≡◌, ◌≢◌, ◌⊎◌, refl, sym, ap, ◌∙◌, subst, Bool, true, false, none, some, List,
  [], ◌∷◌, inl, inr, arith, ◌==◌, if◌then◌else◌, Bool-cases, ==→≡, ==_refl, Option-cases,
}
use mathlib.Core.Option
use hj.Sync.Spin.{
  SpinLock, compare_exchange_weak, lock_loop, unlock, Phase, outside, spinning, holding, Action,
  call_lock, try_lock, access, drop_guard, System, move, after_try, act, step, run,
}
use hj.Sync.Spin.Exclusion.{IsExclusive, run-IsExclusive}

-- No step of the sequence is the hart's.
abbrev pub Without : {A : Type 0} → ℕ → List (ℕ × A) → Type 0
Without i [] = Unit {0}
Without i ((j, action) ∷ actions) = (i ≢ j) × Without i actions

module _ {A : Type 0} where
  -- The hart holds the lock, whose data is this.
  abbrev pub Keeps : ℕ → A → System A → Type 0
  Keeps i value s = (s.phases i ≡ holding) × (s.lock.value ≡ value)

  move-Keeps :
      (i j : ℕ) (value : A) (phase : Phase) (lock : SpinLock A) (s : System A)
      → i ≢ j
      → s.phases i ≡ holding
      → lock.value ≡ value
      → Keeps i value (move j phase lock s)
  move-Keeps i j value phase lock s ne holds kept = elim (Bool-cases (i == j)) [
    | inl hit ↦ absurd (ne (==→≡ i j hit))
    | inr miss ↦ (rw miss holds, kept)
  ]

  try-Keeps :
      (i j : ℕ) (value : A) (fails : Bool) (s : System A)
      → i ≢ j
      → Keeps i value s
      → Keeps i value (after_try j (compare_exchange_weak fails s.lock) s)
  unfolding compare_exchange_weak
  try-Keeps i j value fails s ne (holds, kept) = tried s.lock.locked fails
    where
      taken_lock : SpinLock A
      taken_lock = record { locked = true; value = s.lock.value }

      tried :
          (taken fails : Bool)
          → Keeps i value (
              after_try j
                (if taken
                  then (false, s.lock)
                  else if fails
                  then (false, s.lock)
                  else (true, taken_lock))
                s)
      tried true fails = move-Keeps i j value spinning s.lock s ne holds kept
      tried false true = move-Keeps i j value spinning s.lock s ne holds kept
      tried false false = move-Keeps i j value holding taken_lock s ne holds kept

  act-Keeps :
      (i j : ℕ) (value : A) (action : Action A) (phase : Phase) (s s' : System A)
      → IsExclusive s
      → i ≢ j
      → s.phases j ≡ phase
      → Keeps i value s
      → act action phase j s ≡ some s'
      → Keeps i value s'
  act-Keeps i j value call_lock outside s s' h ne at k e =
      subst (Keeps i value) (Option.some-injective _ s' e)
        (move-Keeps i j value spinning s.lock s ne k.0 k.1)
  act-Keeps i j value call_lock spinning s s' h ne at k e = absurd cc
  act-Keeps i j value call_lock holding s s' h ne at k e = absurd cc
  act-Keeps i j value (try_lock fails) outside s s' h ne at k e = absurd cc
  act-Keeps i j value (try_lock fails) spinning s s' h ne at k e =
      subst (Keeps i value) (Option.some-injective _ s' e) (try-Keeps i j value fails s ne k)
  act-Keeps i j value (try_lock fails) holding s s' h ne at k e = absurd cc
  act-Keeps i j value action holding s s' h ne at k e = absurd (ne (h.unique i j k.0 at))
  act-Keeps i j value (access f) outside s s' h ne at k e = absurd cc
  act-Keeps i j value (access f) spinning s s' h ne at k e = absurd cc
  act-Keeps i j value drop_guard outside s s' h ne at k e = absurd cc
  act-Keeps i j value drop_guard spinning s s' h ne at k e = absurd cc

  -- Where at most one hart holds the lock and the flag is set exactly while one does, a hart that
  -- holds a guard keeps it and the data stay as they are, whatever the other harts do.
  pub run-Keeps :
      (i : ℕ) (value : A) (actions : List (ℕ × Action A)) (s s' : System A)
      → IsExclusive s
      → Without i actions
      → Keeps i value s
      → run actions s ≡ some s'
      → Keeps i value s'
  unfolding run step
  run-Keeps i value [] s s' h w k e = subst (Keeps i value) (Option.some-injective s s' e) k
  run-Keeps i value ((j, action) ∷ actions) s s' h w k e = elim (Option-cases (step j action s)) [
    | inl stuck ↦ absurd (Option.none-ne-some s' (rw (run, stuck) at e))
    | inr (s1, went) ↦
        run-Keeps i value actions s1 s'
          (run-IsExclusive ((j, action) ∷ []) s s1 h (rw (run, went) refl)) w.1
          (act-Keeps i j value action (s.phases j) s s1 h w.0 refl k went) (rw (run, went) at e)
  ]

  run-step :
      (i : ℕ) (action : Action A) (phase : Phase) (actions : List (ℕ × Action A)) (s s' : System A)
      → s.phases i ≡ phase
      → act action phase i s ≡ some s'
      → run ((i, action) ∷ actions) s ≡ run actions s'
  unfolding run step
  run-step i action phase actions s s' at went =
      let stepped : step i action s ≡ some s' = ap (λ p. act action p i s) at ∙ went in
      rw (run, stepped) refl

  -- A hart that spins on a free lock gets it in the first round that does not fail.
  free-run :
      (i : ℕ) (s : System A)
      → s.phases i ≡ spinning
      → s.lock.locked ≡ false
      → run ((i, try_lock false) ∷ []) s
        ≡ some (move i holding (record { locked = true; value = s.lock.value }) s)
  unfolding compare_exchange_weak run
  free-run i s spins free = run-step i (try_lock false) spinning [] s _ spins (simp free refl)

  -- After these steps the hart holds the lock.
  abbrev pub Gets : ℕ → List (ℕ × Action A) → System A → Type 0
  Gets i actions s = (s' : System A) × (run actions s ≡ some s') × (s'.phases i ≡ holding)

  -- Where at most one hart holds the lock and the flag is set exactly while one does, a hart that
  -- spins gets a free lock by one round of its loop that does not fail; where the lock is taken, a
  -- hart holds it, and the one that spins gets it by such a round right after the holder's drop of
  -- its guard.
  pub run-spinning :
      (i : ℕ) (s : System A)
      → IsExclusive s
      → s.phases i ≡ spinning
      → (s.lock.locked ≡ false) × Gets i ((i, try_lock false) ∷ []) s
        ⊎ (s.lock.locked ≡ true)
          × ((j : ℕ) × (s.phases j ≡ holding)
              × Gets i ((j, drop_guard) ∷ (i, try_lock false) ∷ []) s)
  unfolding unlock
  run-spinning i s h spins = elim (Bool-cases s.lock.locked) [
    | inl taken ↦
        let (j, holds) = h.held taken in
        let dropped = move j outside (unlock s.lock) s in
        inr (
          taken,
          (
            j,
            holds,
            (
              move i holding (record { locked = true; value = s.lock.value }) dropped,
              run-step j drop_guard holding ((i, try_lock false) ∷ []) s dropped holds refl
                  ∙ free-run i dropped (still j holds) refl,
              rw (==_refl i) refl,
            ),
          ),
        )
    | inr free ↦ inl (
      free,
      (
        move i holding (record { locked = true; value = s.lock.value }) s,
        free-run i s spins free,
        rw (==_refl i) refl,
      ),
    )
  ]
    where
      still : (j : ℕ) → s.phases j ≡ holding → (if i == j then outside else s.phases i) ≡ spinning
      still j holds = elim (Bool-cases (i == j)) [
        | inl hit ↦ absurd (differ (sym spins ∙ ap (λ k. s.phases k) (==→≡ i j hit) ∙ holds))
        | inr miss ↦ rw miss spins
      ]
        where
          differ : ¬ (spinning ≡ holding)
          differ e = absurd cc

  lock_loop-taken :
      (rounds : ℕ) (fails : ℕ → Bool) (lock : SpinLock A)
      → lock.locked ≡ true
      → lock_loop rounds fails lock ≡ none
  unfolding lock_loop compare_exchange_weak
  lock_loop-taken zero fails lock taken = refl
  lock_loop-taken (suc rounds) fails lock taken =
      simp taken (lock_loop-taken rounds (λ n. fails (suc n)) lock taken)

  lock_loop-free :
      (fails : ℕ → Bool) (k rounds : ℕ) (lock : SpinLock A)
      → lock.locked ≡ false
      → fails k ≡ false
      → k < rounds
      → lock_loop rounds fails lock ≡ some (record lock { locked = true })
  unfolding lock_loop compare_exchange_weak
  lock_loop-free fails k zero lock free ends h = absurd (omega arith)
  lock_loop-free fails zero (suc rounds) lock free ends h = simp (free, ends) refl
  lock_loop-free fails (suc k) (suc rounds) lock free ends h = elim (Bool-cases (fails 0)) [
    | inl failed ↦
        simp (free, failed)
          (lock_loop-free (λ n. fails (suc n)) k rounds lock free ends (omega arith))
    | inr got ↦ simp (free, got) refl
  ]

  -- The loop of `lock`, for a hart that runs alone: where the lock is free it returns with the
  -- lock taken, in the first round that does not fail, for every larger bound; where it is taken it
  -- never returns, which is what a hart does to itself that calls `lock` while it holds a guard.
  pub lock_loop_lem :
      (fails : ℕ → Bool) (k rounds : ℕ) (lock : SpinLock A)
      → fails k ≡ false
      → k < rounds
      → lock_loop rounds fails lock
        ≡ (if lock.locked then none else some (record lock { locked = true }))
  lock_loop_lem fails k rounds lock ends h = elim (Bool-cases lock.locked) [
    | inl taken ↦ simp taken (lock_loop-taken rounds fails lock taken)
    | inr free ↦ simp free (lock_loop-free fails k rounds lock free ends h)
  ]
