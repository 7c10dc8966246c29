-- ===== src/Sync/Spin/Exclusion.antt =====
-- Mutual exclusion of the harts that share a lock of os/src/sync/spin.rs.
use hj.Base.{
  ℕ, ◌≡◌, refl, sym, ◌∙◌, subst, Bool, true, false, some, List, [], ◌∷◌, inl, inr, arith, ◌==◌,
  if◌then◌else◌, Bool-cases, ==→≡, ==_refl, ◌↔◌, Option-cases,
}
use mathlib.Core.Option
use hj.Sync.Spin.{
  SpinLock, compare_exchange_weak, unlock, deref_mut, Phase, outside, spinning, holding, Action,
  call_lock, try_lock, access, drop_guard, System, initial, move, after_try, act, step, run,
}

-- The flag is set exactly while a hart holds the lock, and never two hold it.
pub record IsExclusive {A : Type 0} (s : System A) : Type 0 where
  pub locked : (i : ℕ) → s.phases i ≡ holding → s.lock.locked ≡ true
  pub unique : (i j : ℕ) → s.phases i ≡ holding → s.phases j ≡ holding → i ≡ j
  pub held : s.lock.locked ≡ true → (i : ℕ) × (s.phases i ≡ holding)

module _ {A : Type 0} where
  -- A hart that neither gets nor gives up the lock.
  stay-IsExclusive :
      (i : ℕ) (phase : Phase) (lock : SpinLock A) (s : System A)
      → IsExclusive s
      → lock.locked ≡ s.lock.locked
      → (phase ≡ holding → s.phases i ≡ holding)
      → (s.phases i ≡ holding → phase ≡ holding)
      → IsExclusive (move i phase lock s)
  stay-IsExclusive i phase lock s h same new old = record {
    locked = λ j e. same ∙ h.locked j (back j e);
    unique = λ j k e f. h.unique j k (back j e) (back k f);
    held = λ e. let (j, f) = h.held (sym same ∙ e) in (j, forth j f);
  }
    where
      back : (j : ℕ) → (if j == i then phase else s.phases j) ≡ holding → s.phases j ≡ holding
      back j e = elim (Bool-cases (j == i)) [
        | inl hit ↦ subst (λ k. s.phases k ≡ holding) (sym (==→≡ j i hit)) (new (rw hit at e))
        | inr miss ↦ rw miss at e
      ]

      forth : (j : ℕ) → s.phases j ≡ holding → (if j == i then phase else s.phases j) ≡ holding
      forth j e = elim (Bool-cases (j == i)) [
        | inl hit ↦ rw hit (old (subst (λ k. s.phases k ≡ holding) (==→≡ j i hit) e))
        | inr miss ↦ rw miss e
      ]

  -- A hart that gets the lock.
  take-IsExclusive :
      (i : ℕ) (s : System A)
      → IsExclusive s
      → s.lock.locked ≡ false
      → IsExclusive (move i holding (record s.lock { locked = true }) s)
  take-IsExclusive i s h free = record {
    locked = λ j e. refl;
    unique = λ j k e f. only j e ∙ sym (only k f);
    held = λ e. (i, rw (==_refl i) refl);
  }
    where
      only : (j : ℕ) → (if j == i then holding else s.phases j) ≡ holding → j ≡ i
      only j e = elim (Bool-cases (j == i)) [
        | inl hit ↦ ==→≡ j i hit
        | inr miss ↦ absurd (true_not (sym (h.locked j (rw miss at e)) ∙ free))
      ]
        where
          true_not : ¬ (true ≡ false)
          true_not e = absurd cc

  -- A hart that gives the lock up.
  drop-IsExclusive :
      (i : ℕ) (s : System A)
      → IsExclusive s
      → s.phases i ≡ holding
      → IsExclusive (move i outside (unlock s.lock) s)
  unfolding unlock
  drop-IsExclusive i s h holds = record {
    locked = λ j e. absurd (nobody j e);
    unique = λ j k e f. absurd (nobody j e);
    held = λ e. absurd cc;
  }
    where
      nobody : (j : ℕ) → ¬ ((if j == i then outside else s.phases j) ≡ holding)
      nobody j e = elim (Bool-cases (j == i)) [
        | inl hit ↦ absurd (not_holding (rw hit at e))
        | inr miss ↦
            absurd (differ (subst (λ k. (k == i) ≡ false) (h.unique j i (rw miss at e) holds) miss))
      ]
        where
          not_holding : ¬ (outside ≡ holding)
          not_holding e = absurd cc

          differ : ¬ ((i == i) ≡ false)
          differ e = ground (arith, ==_refl i)

  act-IsExclusive :
      (i : ℕ) (action : Action A) (phase : Phase) (s s' : System A)
      → IsExclusive s
      → s.phases i ≡ phase
      → act action phase i s ≡ some s'
      → IsExclusive s'
  unfolding compare_exchange_weak deref_mut
  act-IsExclusive i call_lock outside s s' h at e =
      subst IsExclusive (Option.some-injective _ s' e)
        (stay-IsExclusive i spinning s.lock s h refl (λ p. absurd cc) (λ p. absurd cc))
  act-IsExclusive i call_lock spinning s s' h at e = absurd cc
  act-IsExclusive i call_lock holding s s' h at e = absurd cc
  act-IsExclusive i (try_lock fails) outside s s' h at e = absurd cc
  act-IsExclusive i (try_lock fails) spinning s s' h at e =
      subst IsExclusive (Option.some-injective _ s' e) (tried s.lock.locked fails refl)
    where
      waits : IsExclusive (move i spinning s.lock s)
      waits = stay-IsExclusive i spinning s.lock s h refl (λ p. absurd cc) (λ p. absurd cc)

      tried :
          (taken fails : Bool)
          → s.lock.locked ≡ taken
          → IsExclusive (
              after_try i
                (if taken
                  then (false, s.lock)
                  else if fails
                  then (false, s.lock)
                  else (true, record s.lock { locked = true }))
                s)
      tried true fails p = waits
      tried false true p = waits
      tried false false p = take-IsExclusive i s h p
  act-IsExclusive i (try_lock fails) holding s s' h at e = absurd cc
  act-IsExclusive i (access f) outside s s' h at e = absurd cc
  act-IsExclusive i (access f) spinning s s' h at e = absurd cc
  act-IsExclusive i (access f) holding s s' h at e =
      subst IsExclusive (Option.some-injective _ s' e)
        (stay-IsExclusive i holding (deref_mut f s.lock) s h refl (λ p. at) (λ p. refl))
  act-IsExclusive i drop_guard outside s s' h at e = absurd cc
  act-IsExclusive i drop_guard spinning s s' h at e = absurd cc
  act-IsExclusive i drop_guard holding s s' h at e =
      subst IsExclusive (Option.some-injective _ s' e) (drop-IsExclusive i s h at)

  pub run-IsExclusive :
      (actions : List (ℕ × Action A)) (s s' : System A)
      → IsExclusive s
      → run actions s ≡ some s'
      → IsExclusive s'
  unfolding run step
  run-IsExclusive [] s s' h e = subst IsExclusive (Option.some-injective s s' e) h
  run-IsExclusive ((i, action) ∷ actions) s s' h e = elim (Option-cases (step i action s)) [
    | inl stuck ↦ absurd (Option.none-ne-some s' (rw (run, stuck) at e))
    | inr (s1, went) ↦
        run-IsExclusive actions s1 s' (act-IsExclusive i action (s.phases i) s s1 h refl went)
          (rw (run, went) at e)
  ]

  pub initial-IsExclusive : (value : A) → IsExclusive (initial value)
  unfolding hj.Sync.Spin.new
  initial-IsExclusive value = record {
    locked = λ i e. absurd cc;
    unique = λ i j e f. absurd cc;
    held = λ e. absurd cc;
  }

  -- In whatever order the harts act on a new lock, no two of them hold a guard at the same time, and
  -- the flag is set exactly while one does.
  pub run-initial :
      (value : A) (actions : List (ℕ × Action A)) (s : System A)
      → run actions (initial value) ≡ some s
      → ((i j : ℕ) → s.phases i ≡ holding → s.phases j ≡ holding → i ≡ j)
        × ((s.lock.locked ≡ true) ↔ ((i : ℕ) × (s.phases i ≡ holding)))
  run-initial value actions s e =
      let h = run-IsExclusive actions (initial value) s (initial-IsExclusive value) e in
      (h.unique, (h.held, λ (i, p). h.locked i p))
