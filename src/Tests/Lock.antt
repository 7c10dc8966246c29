-- ===== src/Tests/Lock.antt =====
-- The theorems on the lock at a concrete run: two harts, of which the first holds the lock.
use hj.Base.{
  ℕ, ◌+◌, ◌≡◌, ◌↔◌, refl, true, false, none, some, List, [], ◌∷◌, arith, if◌then◌else◌, ◌==◌,
}
use hj.Sync.Spin.{
  SpinLock, spinning, holding, Action, call_lock, try_lock, access, drop_guard, System, initial,
  run, step, lock_loop, new, compare_exchange_weak, deref_mut,
}
use hj.Base.{◌⊎◌}
use hj.Sync.Spin.Exclusion.{IsExclusive, initial-IsExclusive, run-IsExclusive, run-initial}
use hj.Sync.Spin.Progress.{Keeps, run-Keeps, Gets, run-spinning, lock_loop_lem}

abbrev actions : List (ℕ × Action ℕ)
actions =
    (0, call_lock)
    ∷ (1, call_lock)
    ∷ (0, try_lock true)
    ∷ (0, try_lock false)
    ∷ (1, try_lock false)
    ∷ (0, access (λ n. n + 1))
    ∷ []

abbrev others : List (ℕ × Action ℕ)
others = (1, try_lock false) ∷ (2, call_lock) ∷ []

-- The second hart spins, the first has made 6 of 5, and holds the lock.
ran :
    (s : System ℕ) × (s' : System ℕ) × (run actions (initial 5) ≡ some s)
    × (run others s ≡ some s')
    × (s.phases 0 ≡ holding)
    × (s.phases 1 ≡ spinning)
    × (s.lock.value ≡ 6)
unfolding run step new compare_exchange_weak deref_mut
ran = (_, _, refl, refl, refl, refl, refl)

ran-IsExclusive : IsExclusive ran.0
ran-IsExclusive = run-IsExclusive actions (initial 5) ran.0 (initial-IsExclusive 5) ran.2

run-initial_example :
    ((i j : ℕ) → ran.0.phases i ≡ holding → ran.0.phases j ≡ holding → i ≡ j)
    × ((ran.0.lock.locked ≡ true) ↔ ((i : ℕ) × (ran.0.phases i ≡ holding)))
run-initial_example = run-initial 5 actions ran.0 ran.2

run-Keeps_example : Keeps 0 6 ran.1
run-Keeps_example =
    run-Keeps 0 6 others ran.0 ran.1 ran-IsExclusive (λ e. omega arith, (λ e. omega arith, tt))
      (ran.4, ran.6) ran.3

run-spinning_example :
    (ran.0.lock.locked ≡ false) × Gets 1 ((1, try_lock false) ∷ []) ran.0
    ⊎ (ran.0.lock.locked ≡ true)
      × ((j : ℕ) × (ran.0.phases j ≡ holding)
          × Gets 1 ((j, drop_guard) ∷ (1, try_lock false) ∷ []) ran.0)
run-spinning_example = run-spinning 1 ran.0 ran-IsExclusive ran.5

abbrev fresh : SpinLock ℕ
fresh = record { locked = false; value = 7 }

lock_loop_example :
    lock_loop 5 (λ n. if n == 2 then false else true) fresh
    ≡ (if fresh.locked then none else some (record fresh { locked = true }))
lock_loop_example = lock_loop_lem (λ n. if n == 2 then false else true) 2 5 fresh refl (omega arith)
