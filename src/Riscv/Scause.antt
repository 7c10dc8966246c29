-- ===== src/Riscv/Scause.antt =====
-- riscv/src/regs/scause.rs: the cause of a trap.
pub mod Codes
use package.hj.Base.{ℕ, ◌^◌, Bool, not, bit_and, bit_xor, ◌==◌, if◌then◌else◌}

abbrev pub interrupt_bit : ℕ
interrupt_bit = 2 ^ 63

unfoldable pub is_interrupt : ℕ → Bool
is_interrupt value = not (bit_and value interrupt_bit == 0)

pub data Cause : Type 0 where
  supervisor_software_interrupt : Cause
  supervisor_timer_interrupt : Cause
  supervisor_external_interrupt : Cause
  counter_overflow_interrupt : Cause
  instruction_address_misaligned : Cause
  instruction_access_fault : Cause
  illegal_instruction : Cause
  breakpoint : Cause
  load_address_misaligned : Cause
  load_access_fault : Cause
  store_or_amo_address_misaligned : Cause
  store_or_amo_access_fault : Cause
  user_environment_call : Cause
  supervisor_environment_call : Cause
  instruction_page_fault : Cause
  load_page_fault : Cause
  store_or_amo_page_fault : Cause
  software_check : Cause
  hardware_error : Cause
  unknown : Cause

unfoldable pub match_interrupt_cause : ℕ → Cause
match_interrupt_cause value =
    let code = bit_xor value interrupt_bit in
    if code == 1
    then supervisor_software_interrupt
    else if code == 5
    then supervisor_timer_interrupt
    else if code == 9
    then supervisor_external_interrupt
    else if code == 13
    then counter_overflow_interrupt
    else unknown

unfoldable pub match_exception_cause : ℕ → Cause
match_exception_cause value =
    if value == 0
    then instruction_address_misaligned
    else if value == 1
    then instruction_access_fault
    else if value == 2
    then illegal_instruction
    else if value == 3
    then breakpoint
    else if value == 4
    then load_address_misaligned
    else if value == 5
    then load_access_fault
    else if value == 6
    then store_or_amo_address_misaligned
    else if value == 7
    then store_or_amo_access_fault
    else if value == 8
    then user_environment_call
    else if value == 9
    then supervisor_environment_call
    else if value == 12
    then instruction_page_fault
    else if value == 13
    then load_page_fault
    else if value == 15
    then store_or_amo_page_fault
    else if value == 18
    then software_check
    else if value == 19
    then hardware_error
    else unknown

unfoldable pub match_cause : ℕ → Cause
unfolding is_interrupt match_interrupt_cause match_exception_cause
match_cause value =
    if is_interrupt value then match_interrupt_cause value else match_exception_cause value
