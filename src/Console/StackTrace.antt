-- ===== src/Console/StackTrace.antt =====
-- `print_stack_trace` of os/src/lang_items.rs, without its output.
use hj.Base.{
  ℕ, zero, suc, ◌≤◌, ◌≡◌, refl, ap, false, Option, none, some, List, [], ◌∷◌, ◌==◌, wrapping_sub,
  if◌then◌else◌, arith, length,
}
use hj.Mm.Memory.{Memory, read_word}
use hj.Riscv.Sstatus.{set_sum_permit, set_sum_deny}

-- What the frame at `fp` saved: the caller's frame pointer and the return address.
unfoldable pub saved : Memory → ℕ → ℕ × ℕ
saved memory fp = (read_word memory (wrapping_sub fp 16), read_word memory (wrapping_sub fp 8))

-- The lines of the loop, in at most `rounds` rounds; none where it goes on.
unfoldable pub trace : (rounds : ℕ) → Memory → ℕ → Option (List (ℕ × ℕ))
trace zero memory fp = if fp == 0 then some [] else none
trace (suc rounds) memory fp =
    let frame = saved memory fp in
    let rest = trace rounds memory frame.0 in
    if fp == 0 then some [] else elim rest [ none ↦ none | some lines ↦ some (frame ∷ lines) ]

-- The register sstatus afterwards, and the lines.
unfoldable pub print_stack_trace :
    (rounds : ℕ) → Memory → (fp sstatus : ℕ) → ℕ × Option (List (ℕ × ℕ))
print_stack_trace rounds memory fp sstatus =
    ((set_sum_deny (set_sum_permit sstatus).1).1, trace rounds memory fp)

-- Frames that end at the null pointer after `n` of them.
pub data FramesEnd (memory : Memory) : ℕ → ℕ → Type 0 where
  null : FramesEnd memory 0 0
  frame :
      {n fp : ℕ}
      → (fp == 0) ≡ false
      → FramesEnd memory n (saved memory fp).0
      → FramesEnd memory (suc n) fp

-- Where the frames end, the loop ends after as many rounds as there are frames, and any bound from
-- there on gives the same lines, one for each frame.
pub trace_lem :
    (memory : Memory) (n fp : ℕ)
    → FramesEnd memory n fp
    → (lines : List (ℕ × ℕ)) × (length lines ≡ n)
      × ((rounds : ℕ) → n ≤ rounds → trace rounds memory fp ≡ some lines)
unfolding trace
trace_lem memory n fp null = ([], refl, λ rounds h. start rounds)
  where
    start : (rounds : ℕ) → trace rounds memory 0 ≡ some []
    start zero = refl
    start (suc rounds) = refl
trace_lem memory n fp (frame {n = k} more rest) =
    let (lines, count, same) = trace_lem memory k (saved memory fp).0 rest in
    (saved memory fp ∷ lines, ap suc count, λ rounds h. step lines same rounds h)
  where
    step :
        (lines : List (ℕ × ℕ))
        → ((rounds : ℕ) → k ≤ rounds → trace rounds memory (saved memory fp).0 ≡ some lines)
        → (rounds : ℕ) → suc k ≤ rounds
        → trace rounds memory fp ≡ some (saved memory fp ∷ lines)
    step lines same zero h = absurd (omega arith)
    step lines same (suc rounds) h = rw (same rounds (omega arith), more) refl
