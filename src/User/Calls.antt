-- ===== src/User/Calls.antt =====
-- The calls of user/src/syscall.rs reach the code of os/src/syscall that they name.
use hj.Base.{
  ℕ, ◌≡◌, ◌≢◌, inl, inr, refl, ◌∙◌, some, List, set, get_elem?, length, arith, wrapping_add,
}
use hj.Outcome.{Cmd, pure, ◌>>=◌, ◌>>◌}
use hj.Task.{Kernel, record_current_syscall}
use hj.Task.Take.{get-set, get-set_self, length-set}
use hj.Syscall.{Control, returned, left, Uaccess, syscall_handler}
use hj.Syscall as Kernel_calls
use hj.Syscall.Mm.{mmap, munmap}
use hj.Trap.Context.{TrapContext}
use hj.Trap.Utrap.{Resume, back, gone, environment_call, finish_call}
use hj.User.{
  Request, as_usize, syscall, sys_write, sys_exit, sys_yield, sys_task_info, sys_mmap, sys_munmap,
}

-- The calls that a program can make.
pub data Call : Type 0 where
  write : (fd buffer len : ℕ) → Call
  exit : ℕ → Call
  yield_now : Call
  get_task_info : (task_id data_addr : ℕ) → Call
  mmap_call : (addr len prot : ℕ) → Call
  munmap_call : (addr len : ℕ) → Call

unfoldable pub request : Call → Request
unfolding sys_write sys_exit sys_yield sys_task_info sys_mmap sys_munmap
request (write fd buffer len) = sys_write fd buffer len
request (exit code) = sys_exit code
request yield_now = sys_yield
request (get_task_info task_id data_addr) = sys_task_info task_id data_addr
request (mmap_call addr len prot) = sys_mmap addr len prot
request (munmap_call addr len) = sys_munmap addr len

module _ {E : Type 0} (u : Uaccess) where
  -- The code that the call is meant for.
  abbrev returns : Cmd Kernel E ℕ → Cmd Kernel E Control
  returns c = do result ← c; pure (returned result)

  unfoldable pub meant : Call → Cmd Kernel E Control
  meant (write fd buffer len) = returns (Kernel_calls.sys_write u fd buffer len)
  meant (exit code) = Kernel_calls.sys_exit (as_usize code)
  meant yield_now = Kernel_calls.sys_yield
  meant (get_task_info task_id data_addr) = returns (Kernel_calls.sys_task_info u task_id data_addr)
  meant (mmap_call addr len prot) = returns (mmap addr len prot)
  meant (munmap_call addr len) = returns (munmap addr len)

module _ (E : Type 0) (u : Uaccess) where
  dispatch :
      (c : Call)
      → syscall_handler {E = E} u (request c).id (request c).a0 (request c).a1 (request c).a2
        ≡ meant u c
  unfolding request meant syscall_handler
  dispatch (write fd buffer len) = refl
  dispatch (exit code) = refl
  dispatch yield_now = refl
  dispatch (get_task_info task_id data_addr) = refl
  dispatch (mmap_call addr len prot) = refl
  dispatch (munmap_call addr len) = refl

-- The registers that the kernel reads.
module _ (r : Request) (context : TrapContext) (whole : length context.x ≡ 32) where
  get_other : (xs : List ℕ) (i j v : ℕ) → i ≢ j → get_elem? (set xs i v) j ≡ get_elem? xs j
  get_other xs i j v ne = elim (get-set xs i j v) [ inl e ↦ absurd (ne e) | inr e ↦ e ]

  abbrev x10 : List ℕ
  x10 = set context.x 10 r.a0

  abbrev x11 : List ℕ
  x11 = set x10 11 r.a1

  abbrev x12 : List ℕ
  x12 = set x11 12 r.a2

  length-x11 : length x11 ≡ 32
  length-x11 = length-set x10 11 r.a1 ∙ length-set context.x 10 r.a0 ∙ whole

  length-x12 : length x12 ≡ 32
  length-x12 = length-set x11 12 r.a2 ∙ length-x11

  get_id : get_elem? (set x12 17 r.id) 17 ≡ some r.id
  get_id = get-set_self x12 17 r.id (omega (arith, length-x12))

  get_a2 : get_elem? (set x12 17 r.id) 12 ≡ some r.a2
  get_a2 =
      get_other x12 17 12 r.id (λ e. omega arith)
      ∙ get-set_self x11 12 r.a2 (omega (arith, length-x11))

  get_a1 : get_elem? (set x12 17 r.id) 11 ≡ some r.a1
  get_a1 =
      get_other x12 17 11 r.id (λ e. omega arith)
      ∙ get_other x11 12 11 r.a2 (λ e. omega arith)
      ∙ get-set_self x10 11 r.a1 (omega (arith, length-set context.x 10 r.a0))

  get_a0 : get_elem? (set x12 17 r.id) 10 ≡ some r.a0
  get_a0 =
      get_other x12 17 10 r.id (λ e. omega arith)
      ∙ get_other x11 12 10 r.a2 (λ e. omega arith)
      ∙ get_other x10 11 10 r.a1 (λ e. omega arith)
      ∙ get-set_self context.x 10 r.a0 (omega arith)

-- Where a program goes on after its call: behind the `ecall`, with the result in a0 (x10) and all
-- other registers as they were there. After `sys_exit` and `sys_yield` another task runs.
abbrev pub after_call : Request → TrapContext → Control → Resume
after_call r context (returned value) = back (record {
  x = set (set (set (set (set context.x 10 r.a0) 11 r.a1) 12 r.a2) 17 r.id) 10 value;
  sstatus = context.sstatus;
  sepc = wrapping_add context.sepc 4;
  task_id = context.task_id;
})
after_call r context (left run) = gone run

finish_call-after_call :
    (r : Request) (context : TrapContext) (control : Control)
    → finish_call (record (syscall r context) { sepc = wrapping_add context.sepc 4 }) control
      ≡ after_call r context control
unfolding syscall
finish_call-after_call r context (returned value) = refl
finish_call-after_call r context (left run) = refl

-- A program with 32 registers that makes any of the calls runs the kernel's code of that call on
-- the same arguments, after the call is counted; where that code returns a value, as it does but
-- for exit and yield, the program goes on behind the ecall with the value in a0 and its other
-- registers as they were there; where that code leaves the task, the handler ends in what was
-- entered.
pub environment_call-syscall :
    (E : Type 0) (u : Uaccess) (c : Call) (context : TrapContext)
    → length context.x ≡ 32
    → environment_call {E = E} u (syscall (request c) context) ≡ (do
      record_current_syscall (request c).id >>= λ _. pure tt
      control ← meant u c
      pure (after_call (request c) context control))
unfolding environment_call syscall
environment_call-syscall E u c context whole =
    rw
      (
        get_id (request c) context whole,
        get_a0 (request c) context whole,
        get_a1 (request c) context whole,
        get_a2 (request c) context whole,
        ← dispatch E u c,
      )
      (λ i. (record_current_syscall (request c).id >>= λ _. pure tt) >>= λ _.
        syscall_handler u (request c).id (request c).a0 (request c).a1 (request c).a2 >>= λ control.
        pure (finish_call-after_call (request c) context control i))
