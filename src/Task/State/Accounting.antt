-- ===== src/Task/State/Accounting.antt =====
-- The times in the statistics of os/src/task/state.rs, over any number of runs of a task.
use hj.Base.{
  ℕ, suc, ◌+◌, ◌-◌, ◌%◌, ◌≤◌, ◌<◌, ◌≡◌, refl, List, [], ◌∷◌, usize_mod, length, arith, sym, ap, ◌∙◌,
  subst,
}
use hj.Task.State.{TaskStatistics, new_zeros, run_start_statistics, run_end_statistics}

-- A run is the time of its start and that of its end.
abbrev pub Runs : Type 0
Runs = List (ℕ × ℕ)

-- The statistics after the runs.
abbrev pub record_runs : Runs → TaskStatistics → TaskStatistics
record_runs [] t = t
record_runs ((start, end) ∷ runs) t =
    record_runs runs (run_end_statistics end (run_start_statistics start t))

-- The runs follow each other, the first not before `time`, as the clock shows them.
abbrev pub InOrder : ℕ → Runs → Type 0
InOrder time [] = Unit {0}
InOrder time ((start, end) ∷ runs) =
    (time ≤ start) × (start ≤ end) × (end < usize_mod) × InOrder end runs

abbrev pub executed : Runs → ℕ
executed [] = 0
executed ((start, end) ∷ runs) = end - start + executed runs

abbrev pub last_end : ℕ → Runs → ℕ
last_end time [] = time
last_end time ((start, end) ∷ runs) = last_end end runs

-- From the first start to the last end, the task was executed or it waited.
abbrev pub IsAccounted : TaskStatistics → Type 0
IsAccounted t =
    (0 < t.mtime_first_run_start)
    × (t.mtime_total_executed + t.mtime_total_waiting + t.mtime_first_run_start
        ≡ t.mtime_last_run_end)

abbrev pub Accounts : TaskStatistics → Runs → TaskStatistics → Type 0
Accounts t runs t' =
    IsAccounted t'
    × (t'.mtime_first_run_start ≡ t.mtime_first_run_start)
    × (t'.mtime_total_executed ≡ t.mtime_total_executed + executed runs)
    × (t'.mtime_last_run_end ≡ last_end t.mtime_last_run_end runs)
    × (t'.switch_count % usize_mod ≡ (t.switch_count + length runs) % usize_mod)

one_run :
    (start end : ℕ) (t : TaskStatistics)
    → IsAccounted t
    → t.mtime_last_run_end ≤ start
    → start ≤ end
    → end < usize_mod
    → Accounts t ((start, end) ∷ []) (run_end_statistics end (run_start_statistics start t))
unfolding run_end_statistics run_start_statistics
one_run start end t a p q r = ground arith

Accounts-cons :
    (start end : ℕ) (runs : Runs) (t t1 t2 : TaskStatistics)
    → Accounts t ((start, end) ∷ []) t1
    → Accounts t1 runs t2
    → Accounts t ((start, end) ∷ runs) t2
Accounts-cons start end runs t t1 t2 (a, first, total, last, switches)
      (a', first', total', last', switches') =
    (a', first' ∙ first, omega arith, last' ∙ ap (λ time. last_end time runs) last, omega arith)

record_runs-Accounts :
    (runs : Runs) (t : TaskStatistics)
    → IsAccounted t
    → InOrder t.mtime_last_run_end runs
    → Accounts t runs (record_runs runs t)
record_runs-Accounts [] t a h = (a, refl, omega arith, refl, omega arith)
record_runs-Accounts ((start, end) ∷ runs) t a (p, q, r, h) =
    let t1 = run_end_statistics end (run_start_statistics start t) in
    let one = one_run start end t a p q r in
    Accounts-cons start end runs t t1 (record_runs runs t1) one
      (record_runs-Accounts runs t1 one.0 (subst (λ time. InOrder time runs) (sym one.3) h))

first_run :
    (start end : ℕ)
    → 0 < start
    → start ≤ end
    → end < usize_mod
    → let t = run_end_statistics end (run_start_statistics start new_zeros) in
      IsAccounted t
      × (t.mtime_first_run_start ≡ start)
      × (t.mtime_total_executed ≡ end - start)
      × (t.mtime_last_run_end ≡ end)
      × (t.switch_count ≡ 1)
unfolding run_end_statistics run_start_statistics new_zeros
first_run start end p q r = ground arith

-- After one or more runs of a new task, in the order of the clock and the first after time 0: the
-- executed time is the sum of the runs, with the waiting time it makes up the time from the first
-- start to the last end, and the switches are counted modulo 2 ^ 64.
pub record_runs-new_zeros :
    (start end : ℕ) (runs : Runs)
    → 0 < start
    → InOrder 0 ((start, end) ∷ runs)
    → let t = record_runs ((start, end) ∷ runs) new_zeros in
      (t.mtime_first_run_start ≡ start)
      × (t.mtime_last_run_end ≡ last_end end runs)
      × (t.mtime_total_executed ≡ executed ((start, end) ∷ runs))
      × (t.mtime_total_executed + t.mtime_total_waiting + start ≡ last_end end runs)
      × (t.switch_count % usize_mod ≡ suc (length runs) % usize_mod)
record_runs-new_zeros start end runs p (q, r, small, h) =
    let t1 = run_end_statistics end (run_start_statistics start new_zeros) in
    let (a, first, total, last, switches) = first_run start end p r small in
    let (a', first', total', last', switches') =
      record_runs-Accounts runs t1 a (subst (λ time. InOrder time runs) (sym last) h) in
    let ends = last' ∙ ap (λ time. last_end time runs) last in
    (first' ∙ first, ends, omega arith, omega (arith, a'.1), omega arith)
