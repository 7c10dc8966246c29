-- ===== src/Sync/Spin.antt =====
-- os/src/sync/spin.rs: the spin lock, taken by any number of harts. A hart is outside, spins in the
-- loop of `lock`, or holds a guard. An atomic operation is one step, and steps of all harts
-- interleave in any order. `compare_exchange_weak` may fail although it need not: that is an argument
-- of the step. A guard is used by the hart that got it. The formatting of a guard is left out.
pub mod Exclusion
pub mod Progress
use package.hj.Base.{
  ℕ, zero, suc, Bool, true, false, Option, none, some, List, [], ◌∷◌, ◌==◌, if◌then◌else◌,
}

pub record SpinLock (A : Type 0) : Type 0 where
  pub locked : Bool
  pub value : A

module _ {A : Type 0} where
  unfoldable pub new : A → SpinLock A
  new value = record { locked = false; value = value }

  -- `locked.compare_exchange_weak(false, true)`: whether it was an `Ok`.
  unfoldable pub compare_exchange_weak : Bool → SpinLock A → Bool × SpinLock A
  compare_exchange_weak fails lock =
      if lock.locked
      then (false, lock)
      else if fails
      then (false, lock)
      else (true, record lock { locked = true })

  unfoldable pub unlock : SpinLock A → SpinLock A
  unlock lock = record lock { locked = false }

  -- The drop of a guard.
  abbrev pub drop : SpinLock A → SpinLock A
  drop lock = unlock lock

  -- `*guard`, and a change through it.
  abbrev pub deref : SpinLock A → A
  deref lock = lock.value

  unfoldable pub deref_mut : (A → A) → SpinLock A → SpinLock A
  deref_mut f lock = record lock { value = f (deref lock) }

-- The loop of `lock` with a bound on its rounds, where no other hart acts in between; `fails` tells
-- which rounds fail without need.
unfoldable pub lock_loop : {A : Type 0} → ℕ → (ℕ → Bool) → SpinLock A → Option (SpinLock A)
unfolding compare_exchange_weak
lock_loop zero fails lock = none
lock_loop (suc rounds) fails lock =
    let again = lock_loop rounds (λ n. fails (suc n)) lock in
    let (is_ok, lock') = compare_exchange_weak (fails 0) lock in if is_ok then some lock' else again

pub data Phase : Type 0 where
  outside spinning holding : Phase

-- What a hart does next: the call of `lock`, a round of its loop, an access through the guard, or
-- the drop of the guard.
pub data Action (A : Type 0) : Type 0 where
  call_lock : Action A
  try_lock : Bool → Action A
  access : (A → A) → Action A
  drop_guard : Action A

pub record System (A : Type 0) : Type 0 where
  pub lock : SpinLock A
  pub phases : ℕ → Phase

module _ {A : Type 0} where
  abbrev pub initial : A → System A
  initial value = record { lock = new value; phases = λ i. outside }

  abbrev pub move : ℕ → Phase → SpinLock A → System A → System A
  move i phase lock s = record { lock = lock; phases = λ j. if j == i then phase else s.phases j }

  -- The end of a round: the loop goes on, or `lock` returns a guard.
  abbrev pub after_try : ℕ → Bool × SpinLock A → System A → System A
  after_try i (true, lock) s = move i holding lock s
  after_try i (false, lock) s = move i spinning lock s

  abbrev pub act : Action A → Phase → ℕ → System A → Option (System A)
  act call_lock outside i s = some (move i spinning s.lock s)
  act (try_lock fails) spinning i s = some (after_try i (compare_exchange_weak fails s.lock) s)
  act (access f) holding i s = some (move i holding (deref_mut f s.lock) s)
  act drop_guard holding i s = some (move i outside (drop s.lock) s)
  act _ _ i s = none

  -- A step of a hart, if the code can make it where the hart is.
  unfoldable pub step : ℕ → Action A → System A → Option (System A)
  step i action s = act action (s.phases i) i s

  unfoldable pub run : List (ℕ × Action A) → System A → Option (System A)
  unfolding step
  run [] s = some s
  run ((i, action) ∷ actions) s = elim (step i action s) [ none ↦ none | some s' ↦ run actions s' ]
