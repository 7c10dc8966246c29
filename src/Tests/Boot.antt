-- ===== src/Tests/Boot.antt =====
-- The theorems on the programs, the log and the calls at concrete inputs: one program named "a".
use hj.Base.{
  ℕ, ◌-◌, ◌^◌, ◌<◌, ◌≤◌, ◌≡◌, ◌↔◌, refl, inl, true, none, some, List, [], ◌∷◌, map, arith,
  get_elem?, replicate, ◌++◌,
}
use hj.Outcome.{pure, ◌>>=◌, ◌>>◌}
use hj.Build.{Symbol, num_apps, app, name_start, name_end, elf_start, elf_end, write_app_asms}
use hj.Build.Table.{Placed, write_app_asms-Placed}
use hj.Console.Log.{Level, warn, ordinal, to_lower, level_name, init, should_log, should_log-init}
use hj.Mm.Memory.{Memory, read_word}
use hj.Task.{Kernel, record_current_syscall}
use hj.Task.Start.{start}
use hj.Task.Start.First.{Unmade, start-Ran}
use hj.Syscall.Schedule.{Ran}
use hj.Outcome.Post.{Ends}
use hj.Task.Apps.{read_bytes, get_total_apps, get_app_elf, get_app_name}
use hj.Trap.Utrap.{environment_call}
use hj.Tests.Schedule.{plain_access, trapped, new_kernel}
use hj.User.{syscall}
use hj.User.Calls.{mmap_call, request, meant, after_call, environment_call-syscall}

-- The table of one program, its name, and its two bytes 7 and 9.
abbrev image : List ℕ
image =
    1 ∷ replicate 7 0
    ++ (40 ∷ 16 ∷ replicate 6 0)
    ++ (41 ∷ 16 ∷ replicate 6 0)
    ++ (48 ∷ 16 ∷ replicate 6 0)
    ++ (50 ∷ 16 ∷ replicate 6 0)
    ++ (97 ∷ replicate 7 0)
    ++ (7 ∷ 9 ∷ [])

abbrev image_memory : Memory
image_memory a = elim (get_elem? image (a - 4096)) [ none ↦ 0 | some b ↦ b ]

abbrev symbols : Symbol → ℕ
symbols num_apps = 4096
symbols (app i name_start) = 4136
symbols (app i name_end) = 4137
symbols (app i elf_start) = 4144
symbols (app i elf_end) = 4146

abbrev names : List (List ℕ)
names = (97 ∷ []) ∷ []

abbrev files : List ℕ → List ℕ
files name = 7 ∷ 9 ∷ []

image-Placed : Placed symbols files image_memory 4093 (write_app_asms names)
unfolding write_app_asms read_word read_bytes
image-Placed = (
  refl,
  (refl, (refl, (refl, (refl, (refl, (refl, (refl, (refl, (refl, (refl, (refl, tt))))))))))),
)

small_symbols : (s : Symbol) → symbols s < 2 ^ 64
small_symbols num_apps = omega arith
small_symbols (app i name_start) = omega arith
small_symbols (app i name_end) = omega arith
small_symbols (app i elf_start) = omega arith
small_symbols (app i elf_end) = omega arith

write_app_asms_example :
    (get_total_apps image_memory 4096 ≡ 1)
    × (get_app_elf image_memory 4096 0 ≡ 7 ∷ 9 ∷ [])
    × (get_app_name image_memory 4096 (λ bytes. true) 0 ≡ 97 ∷ [])
write_app_asms_example =
    write_app_asms-Placed symbols files image_memory (λ bytes. true) names 4093 0 (97 ∷ [])
      image-Placed small_symbols refl

-- A kernel that finds the table of the one program.
abbrev booted : Kernel
booted = record new_kernel { machine = record new_kernel.machine { memory = image_memory } }

one_program : get_total_apps image_memory 4096 ≡ 1
unfolding get_total_apps read_word
one_program = refl

start-Ran_example :
    Ends {E = Unit {0}}
      (Unmade 0x80201000
        (λ bytes. inl "no file")
        (Unit {0})
        4096
        (get_total_apps image_memory 4096)
        0
        (booted, 0))
      Ran
      (start 0x80201000 (λ bytes. inl "no file") 4096 (booted, 0))
start-Ran_example =
    start-Ran 0x80201000 (λ bytes. inl "no file") (Unit {0}) 4096 booted 0 refl refl
      (omega (arith, one_program))

-- "Info"
abbrev setting : List ℕ
setting = 73 ∷ 110 ∷ 102 ∷ 111 ∷ []

should_log_example : (should_log (init (some setting)) warn ≡ true) ↔ (
    (max_level : Level) × (map to_lower setting ≡ level_name max_level)
    × (1 ≤ ordinal warn)
    × (ordinal warn ≤ ordinal max_level))
should_log_example = should_log-init setting warn

environment_call_example :
    environment_call {E = Unit {0}} plain_access
      (syscall (request (mmap_call 0x10000 4096 3)) trapped)
    ≡ (do
      record_current_syscall (request (mmap_call 0x10000 4096 3)).id >>= λ _. pure tt
      control ← meant plain_access (mmap_call 0x10000 4096 3)
      pure (after_call (request (mmap_call 0x10000 4096 3)) trapped control))
environment_call_example =
    environment_call-syscall (Unit {0}) plain_access (mmap_call 0x10000 4096 3) trapped refl
