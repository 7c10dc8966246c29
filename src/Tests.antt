-- ===== src/Tests.antt =====
-- The theorems at concrete inputs: a machine with one empty root table, and short lists of tasks.
pub mod Schedule
pub mod Boot
pub mod Lock
pub mod Unmap
mod Space
use package.hj.Base.{
  ℕ, ◌+◌, ◌*◌, ◌/◌, ◌%◌, ◌^◌, ◌≤◌, ◌<◌, ◌≡◌, ◌≢◌, ◌↔◌, inl, inr, refl, true, false, some, List, [],
  ◌∷◌, find, bit_or, usize_mod, arith, ◌==◌, if◌then◌else◌,
}
use mathlib.Core.Option
use package.hj.Outcome.{ok}
use package.hj.Mm.{
  is_valid_va, check_u_va_range, vpn_from_va, vpn_get_va, get_va_from_pa, get_pa_from_va,
  user_space_end, kernel_va_offset,
}
use package.hj.Mm.Bounds.{
  IsVpn, vpn_get_va-vpn_from_va, get_pa_from_va-get_va_from_pa, check_u_va_range_iff,
}
use package.hj.Mm.Memory.{read_word}
use package.hj.Mm.PageAlloc.{PageAllocator, Machine, alloc, dealloc}
use package.hj.Mm.Sv39.{
  RootPgt, Pte, map_create, pte_new, is_valid, pte_get_ppn, is_leaf, is_valid_flags, flag_v,
  root_get_satp,
}
use package.hj.Mm.Sv39.Pte.{IsFlags, is_valid_flags_iff, pte_new-pte_get_ppn}
use package.hj.Mm.Sv39.Tree.{Roles, unused, top, assign, entry, IsFresh}
use package.hj.Mm.Sv39.Fresh.{Grants, alloc-Grants, dealloc-IsFresh}
use package.hj.Mm.Sv39.Child.{Inv}
use package.hj.Mm.Sv39.MapCreate.{map_create-Maps}
use package.hj.Mm.Sv39.Maps.{Maps}
use package.hj.Mm.Vm.{VmArea, VmSpace, anonymous}
use package.hj.Mm.Vm.AddArea.{Adds, add_new_area-Adds}
use package.hj.Mm.Vm.Space.{add_new_area, unmap}
use package.hj.Mm.Vm.Kernel.{
  compute_phy_mem_page_start, compute_phy_mem_large_page_start, compute_phy_mem_large_page_end,
  get_kernel_satp_ppn,
}
use package.hj.Mm.Vm.Rounding.{
  IsRoundUp, IsRoundDown, phy_mem_rounding, get_kernel_satp_ppn-root_get_satp,
}
use package.hj.Riscv.Satp.{compute_value, get_mode_value}
use package.hj.Riscv.Scause.{supervisor_timer_interrupt, unknown, match_cause}
use package.hj.Riscv.Scause.Codes.{value_of, match_cause_iff}
use package.hj.Riscv.Stvec.{vectored, mode_bit, install, install_lem}
use package.hj.Syscall.Coverage.{Covers, mmap_munmap_Covers, mmap_permissions_iff}
use package.hj.Syscall.Mm.{mmap_area, munmap_area, to_permissions}
use package.hj.Task.{
  Kernel, get_next_task_id, take_task_tcb, run_next_task, is_ready, exchange_current_task_state,
}
use package.hj.Mm.PageAlloc.{compute_first_unused_ppn}
use package.hj.Mm.PageAlloc.FirstPage.{compute_first_unused_ppn_lem}
use package.hj.Task.Exchange.{Exchanges, exchange_current_task_state-Exchanges}
use package.hj.Task.Enter.{run_next_task-Runs}
use package.hj.Task.State.{TaskState, ready, running, TaskControlBlock, new_zeros, count_call}
use package.hj.Task.State.Accounting.{record_runs, record_runs-new_zeros}
use package.hj.Task.State.Counts.{Counts, count_call-Counts}
use package.hj.Task.Switch.{Runs}
use package.hj.Task.Take.{Takes, take_task_tcb-Takes}

abbrev pages : PageAllocator
pages = record { next_unused_ppn = 0x80401; max_ppn = 0x88000; recycled_ppn = [] }

abbrev machine : Machine
machine = record { allocator = pages; memory = λ _. 0; kernel_satp = 0x8000_0000_0008_0400 }

abbrev root : RootPgt
root = record { ppn = 0x80400; pages = record { ppn = 0x80400 } ∷ [] }

-- The uses of the pages: the root table alone.
abbrev uses : Roles
uses = assign (λ _. unused) 0x80400 top

no_entries : (p i : ℕ) → entry (λ _. 0) p i ≡ 0
unfolding entry read_word
no_entries p i = refl

uses-IsFresh : IsFresh uses pages
uses-IsFresh = record {
  recycled = tt;
  distinct = tt;
  rest = λ p l h. ground arith;
  bound = omega arith;
}

uses-Inv : Inv uses (machine, root)
uses-Inv = record {
  tree = record {
    root_top = refl;
    frames = λ p h. ground arith;
    links = λ p i upper small next. absurd (ground (arith, no_entries p i));
  };
  fresh = uses-IsFresh;
}

root_satp : machine.kernel_satp ≡ root_get_satp root
unfolding root_get_satp compute_value get_mode_value
root_satp = refl

low_page : vpn_from_va 0x10abc ≡ some 0x10
unfolding vpn_from_va is_valid_va
low_page = refl

map_create_example :
    Maps uses (machine, root) 0x10000 0x80500 23 (map_create 0x10000 0x80500 23 (machine, root))
map_create_example =
    map_create-Maps uses (machine, root) 0x10000 0x80500 23 uses-Inv (inl (omega arith))
      (omega arith) (omega arith)

abbrev code_area : VmArea
code_area = record {
  start_vpn = 0x10;
  end_vpn = 0x14;
  map_type = anonymous;
  permissions = 26;
  pages = [];
}

abbrev space : VmSpace
space = record {
  root_pgt = root;
  areas = code_area ∷ [];
  entry_addr = 0x10000;
  u_stack_end = 0;
  k_stack_end = 0;
}

add_new_area_example :
    Adds
      (machine, space)
      0x20
      0x28
      anonymous
      22
      (add_new_area 0x20 0x28 anonymous 22 (machine, space))
add_new_area_example =
    add_new_area-Adds (machine, space) 0x20 0x28 anonymous 22 (omega arith, tt, tt)

abbrev task : ℕ → TaskState → TaskControlBlock
task id state = record {
  task_id = id;
  vm_space = space;
  state = state;
  context = record { saved = []; ra = 0x80200000; sp = 0; tp = 0; satp = 0 };
  statistics = new_zeros;
}

abbrev tasks : List TaskControlBlock
tasks = task 1 ready ∷ task 2 ready ∷ task 3 ready ∷ []

abbrev kernel : Kernel
kernel = record {
  machine = machine;
  all_tasks = tasks;
  next_task_id = 4;
  current = some 2;
  clock = λ n. 1000 + 10 * n;
  reads = 0;
  mtimecmp = 0;
}

run_next_task_example : Runs {E = Unit {0}} kernel (run_next_task kernel)
run_next_task_example = run_next_task-Runs (Unit {0}) kernel

take_task_tcb_example : Takes 2 tasks (take_task_tcb 2 1000 tasks)
take_task_tcb_example = take_task_tcb-Takes 2 1000 tasks

mmap_munmap_example :
    (start : ℕ) × (end : ℕ) × (mmap_area 0x10800 0x1000 6 (machine, space)
      ≡ add_new_area start end anonymous (to_permissions 6) (machine, space))
    × (munmap_area 0x10800 0x1000 (machine, space) ≡ unmap start end (machine, space))
    × Covers 0x10800 0x1000 start end
mmap_munmap_example =
    mmap_munmap_Covers 0x10800 0x1000 6 (machine, space) (omega arith) (omega arith) (omega arith)
      ((check_u_va_range_iff 0x10800 0x1000 (omega arith) (omega arith)).1
        (omega arith, omega arith, omega arith))

mmap_permissions_example :
    (is_valid_flags (bit_or (to_permissions 4) flag_v) ≡ true) ↔ (◌≢◌ {A = ℕ} 4 4 × ◌≢◌ {A = ℕ} 4 5)
mmap_permissions_example = mmap_permissions_iff 4 (omega arith)

abbrev slots : List (ℕ × ℕ)
slots = (64, 3) ∷ (93, 1) ∷ (0, 0) ∷ []

count_call_example : Counts 124 slots (count_call 124 slots)
count_call_example =
    count_call-Counts 124 slots (λ e. omega arith)
      (inr (
        (λ e. omega arith),
        ((λ e. omega arith), ((λ e. omega arith), tt)),
        inr ((λ e. omega arith), ((λ e. omega arith), tt), inl (refl, refl, tt)),
      ))

alloc_example : Grants uses pages (alloc pages)
alloc_example = alloc-Grants {ρ = uses} pages uses-IsFresh

dealloc_example : IsFresh (assign uses 0x80400 unused) (dealloc (record { ppn = 0x80400 }) pages)
dealloc_example =
    dealloc-IsFresh {ρ = uses} pages (record { ppn = 0x80400 }) uses-IsFresh (λ e. ground arith)
      (omega arith) (omega arith)

pte_new_example :
    (e : Pte) × (pte_new {S = Unit {0}} 0x80500 23 tt ≡ ok e tt)
    × (e % 1024 ≡ 23)
    × (is_valid e ≡ true)
    × (pte_get_ppn e ≡ some 0x80500)
    × ((is_leaf e ≡ true) ↔ (23 / 4 % 4 ≢ 0))
pte_new_example =
    pte_new-pte_get_ppn {S = Unit {0}} tt 0x80500 23 (omega arith) (omega arith)
      ((is_valid_flags_iff 23 (omega arith)).1 (omega arith, omega arith, λ e. omega arith))

is_valid_flags_example : (is_valid_flags 23 ≡ true) ↔ IsFlags 23
is_valid_flags_example = is_valid_flags_iff 23 (omega arith)

record_runs_example :
    let t = record_runs ((10, 30) ∷ (50, 60) ∷ []) new_zeros in
    (t.mtime_first_run_start ≡ 10)
    × (t.mtime_last_run_end ≡ 60)
    × (t.mtime_total_executed ≡ 30)
    × (t.mtime_total_executed + t.mtime_total_waiting + 10 ≡ 60)
    × (t.switch_count % usize_mod ≡ 2 % usize_mod)
record_runs_example =
    record_runs-new_zeros 10 30 ((50, 60) ∷ []) (omega arith)
      (omega arith, omega arith, omega arith, (omega arith, omega arith, omega arith, tt))

phy_mem_rounding_example :
    IsRoundUp (2 ^ 12) 0x80345678 (compute_phy_mem_page_start 0x80345678)
    × IsRoundUp (2 ^ 21) 0x80346000 (compute_phy_mem_large_page_start 0x80346000)
    × IsRoundDown (2 ^ 21) 0x87FFF000 (compute_phy_mem_large_page_end 0x87FFF000)
phy_mem_rounding_example =
    phy_mem_rounding 0x80345678 0x80346000 0x87FFF000 (omega arith) (omega arith) (omega arith)

get_kernel_satp_ppn_example : get_kernel_satp_ppn machine ≡ some 0x80400
get_kernel_satp_ppn_example = get_kernel_satp_ppn-root_get_satp root machine (omega arith) root_satp

install_example :
    install 0x80201002 vectored 7
    ≡ (if 0x80201002 % 4 == 0 then (true, 0x80201002 + mode_bit vectored) else (false, 7))
install_example = install_lem 0x80201002 7 vectored

check_u_va_range_example :
    (check_u_va_range 0x3f_ffff_e000 0x1000 ≡ true)
    ↔ (0x3f_ffff_e000 < user_space_end)
      × (0x3f_ffff_e000 + 0x1000 ≤ user_space_end)
      × (0 < 0x3f_ffff_e000 + 0x1000)
check_u_va_range_example = check_u_va_range_iff 0x3f_ffff_e000 0x1000 (omega arith) (omega arith)

vpn_from_va_example : IsVpn 0x10 × (vpn_get_va 0x10 + 0x10abc % 2 ^ 12 ≡ 0x10abc)
vpn_from_va_example = vpn_get_va-vpn_from_va 0x10abc 0x10 (omega arith) low_page

get_va_from_pa_example :
    (va : ℕ) × (get_va_from_pa 0x80000000 ≡ some va)
    × (kernel_va_offset ≤ va)
    × (get_pa_from_va va ≡ some 0x80000000)
get_va_from_pa_example = get_pa_from_va-get_va_from_pa 0x80000000 (omega arith)

timer_known : supervisor_timer_interrupt ≢ unknown
timer_known e = absurd (cc)

match_cause_example :
    (match_cause 0x8000_0000_0000_0005 ≡ supervisor_timer_interrupt)
    ↔ (value_of supervisor_timer_interrupt ≡ some 0x8000_0000_0000_0005)
match_cause_example =
    match_cause_iff 0x8000_0000_0000_0005 supervisor_timer_interrupt (omega arith) timer_known

compute_first_unused_ppn_example :
    (p : ℕ) × (compute_first_unused_ppn 0xffff_ffc0_8034_5678 ≡ some p)
    × (0xffff_ffc0_8034_5678 ≤ p * 2 ^ 12 + kernel_va_offset)
    × (p * 2 ^ 12 + kernel_va_offset < 0xffff_ffc0_8034_5678 + 2 ^ 12)
compute_first_unused_ppn_example =
    compute_first_unused_ppn_lem 0xffff_ffc0_8034_5678 (omega arith) (omega arith)

exchange_current_task_state_example :
    Exchanges ready running kernel
      (some 2)
      (some (task 2 ready))
      (exchange_current_task_state ready running kernel)
exchange_current_task_state_example = exchange_current_task_state-Exchanges ready running kernel
