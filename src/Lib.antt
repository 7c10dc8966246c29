-- ===== src/Lib.antt =====
-- The kernel of this repository, modelled: the memory management, the tasks, the traps, the system
-- calls, the spin lock and the log levels under os/src, the table of programs that os/build.rs
-- writes, the calls of user/src/syscall.rs, and the values of the registers under riscv/src/regs.
--
-- Parts. A trap from user mode enters trap/utrap.rs. It calls the system calls (syscall.rs), repairs
-- a page fault through the task's address space (mm/vm.rs), or stops the task. A task that stops
-- leaves through `run_next_task` (task.rs), which enters the next ready one. An address space is a
-- list of areas and a page table (mm/sv39.rs), both of whose pages come from mm/page_alloc.rs.
--
-- Files.
--   Base, Bits: shared names, tests, lists, and the laws of `&`, `|` and `^`.
--   Outcome: code that may return an error or panic, with its state passed on (the `Cmd` type).
--     Outcome/Post has postconditions of such code.
--   Riscv: riscv/src/regs (satp, scause, sstatus, sie, stvec) and riscv/src/macros.rs (Access).
--   Mm: os/src/mm.rs, with its init in Mm/Boot. Mm/Memory is the memory, byte by byte.
--   Mm/PageAlloc: os/src/mm/page_alloc.rs.
--   Mm/Sv39: os/src/mm/sv39.rs, with `unmap` in Unmap, whose children hold what it does to the
--     walk, loop by loop up to the whole (Range). Other children hold the walk of the
--     hardware (Tree), the allocator against the uses of pages (Fresh), and what `map_create`
--     promises (Maps) with its proof (Steps, Grow, Child, Leaf, MapCreate).
--   Mm/Vm: os/src/mm/vm.rs. Space has the operations on areas, Kernel the kernel's own mappings,
--     User the spaces made from ELF files. View is what the areas say of a page, whatever their
--     order, with the effects on it of cutting an area (Trim, Pieces, Left) and of filling in a page
--     (Fill, Update); Cut and Unmap follow the loop of `unmap` with it. Sound is the invariant that
--     joins areas, page table and free pages, and what each operation does to it.
--   Task: os/src/task.rs and os/src/timer.rs, with `start` in Start. Task/State:
--     os/src/task/state.rs. Task/Apps: os/src/task/apps.rs. Task/Schedule has the invariant of the
--     list of tasks, in terms of ids and states alone, and its child Leaver what becomes of the id of
--     a killed task.
--   Trap: os/src/trap.rs, os/src/trap/utrap.rs and os/src/trap/ktrap.rs. Trap/Kill follows a
--     task that is killed; Trap/Reach joins the traps to runs of the system.
--   Sync/Spin: os/src/sync/spin.rs, with any number of harts.
--   Console/Log: os/src/console/log.rs. Console/StackTrace: the loop of os/src/lang_items.rs.
--   Build: os/build.rs. User: user/src/syscall.rs; User/Start: user/src/lib.rs and user/src/task.rs.
--   Syscall: os/src/syscall.rs, os/src/syscall/io.rs and os/src/syscall/process.rs. Syscall/Mm:
--     os/src/syscall/mm.rs.
--   Tests: the theorems at concrete inputs.
--
-- State. `Machine` holds the allocator, the memory and the kernel's satp; a method on `&mut self` is
-- a command on the pair of the machine and the object. `Kernel` adds the list of tasks, the current
-- task's id (which the code reads through `tp`), the clock and the timer. A drop that the compiler
-- inserts is written out where it changes the state. A panic ends the run.
--
-- Bounds. A `usize` is a natural number; sums and differences that can leave the 64 bits are written
-- with their wrap, as in release code, or with the panic of the checked operation. Loops recur on
-- the number of rounds that the range gives, so no fuel is guessed. The loop of the spin lock has no
-- such number: it is a step relation, and a loop on a bound with a theorem that the bound is enough.
--
-- Not modelled: the assembly (its effect on memory is an argument, or the model ends at it), the
-- parsing of ELF files (an argument), the heap, output and the formatting of messages, the calls of
-- the firmware, and the user programs.
pub mod Base
pub mod Bits
pub mod Build
pub mod Console
pub mod Outcome
pub mod Riscv
pub mod Sync
pub mod Mm
pub mod Task
pub mod Syscall
pub mod Trap
pub mod User
pub mod Tests
