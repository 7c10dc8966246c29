-- ===== src/Riscv/Scause/Codes.antt =====
-- The causes of riscv/src/regs/scause.rs against the table of the privileged architecture.
use hj.Base.{
  ℕ, ◌+◌, ◌-◌, ◌^◌, ◌<◌, ◌≤◌, ◌≡◌, ◌≢◌, ◌↔◌, ◌⊎◌, inl, inr, refl, sym, ap, ◌∙◌, subst, Option, none,
  some, true, ◌==◌, if◌then◌else◌, bit_xor, usize_mod, arith, Bool-cases,
}
use hj.Bits.{bit_and_high, bit_xor_off}
use hj.Riscv.Scause.{
  Cause, is_interrupt, match_cause, match_interrupt_cause, match_exception_cause,
  supervisor_software_interrupt, supervisor_timer_interrupt, supervisor_external_interrupt,
  counter_overflow_interrupt, instruction_address_misaligned, instruction_access_fault,
  illegal_instruction, breakpoint, load_address_misaligned, load_access_fault,
  store_or_amo_address_misaligned, store_or_amo_access_fault, user_environment_call,
  supervisor_environment_call, instruction_page_fault, load_page_fault, store_or_amo_page_fault,
  software_check, hardware_error, unknown,
}

-- The value of the register for each cause: an interrupt has the highest bit.
abbrev pub value_of : Cause → Option ℕ
value_of supervisor_software_interrupt = some (2 ^ 63 + 1)
value_of supervisor_timer_interrupt = some (2 ^ 63 + 5)
value_of supervisor_external_interrupt = some (2 ^ 63 + 9)
value_of counter_overflow_interrupt = some (2 ^ 63 + 13)
value_of instruction_address_misaligned = some 0
value_of instruction_access_fault = some 1
value_of illegal_instruction = some 2
value_of breakpoint = some 3
value_of load_address_misaligned = some 4
value_of load_access_fault = some 5
value_of store_or_amo_address_misaligned = some 6
value_of store_or_amo_access_fault = some 7
value_of user_environment_call = some 8
value_of supervisor_environment_call = some 9
value_of instruction_page_fault = some 12
value_of load_page_fault = some 13
value_of store_or_amo_page_fault = some 15
value_of software_check = some 18
value_of hardware_error = some 19
value_of unknown = none

abbrev Reads : ℕ → Cause → Type 0
Reads value c = (c ≡ unknown) ⊎ (value_of c ≡ some value)

-- A chain of tests: where a test succeeds, the cause is the one of that code.
test :
    (value code n : ℕ) (c rest : Cause)
    → value_of c ≡ some value ⊎ (code ≢ n)
    → Reads value rest
    → Reads value (if code == n then c else rest)
test value code n c rest here there = elim (Bool-cases (code == n)) [
  | inl same ↦ rw same (elim here [ inl e ↦ inr e | inr ne ↦ absurd (ne (ground arith)) ])
  | inr differs ↦ rw differs there
]

at : (value n : ℕ) → ((some n ≡ some value) ⊎ (value ≢ n))
at value n = elim (Bool-cases (value == n)) [
  | inl same ↦ inl (ap some (ground arith))
  | inr differs ↦ inr (λ e. ground arith)
]

at_bit :
    (value code n : ℕ) → code + 2 ^ 63 ≡ value → ((some (2 ^ 63 + n) ≡ some value) ⊎ (code ≢ n))
at_bit value code n h = elim (Bool-cases (code == n)) [
  | inl same ↦ inl (ap some (ground arith))
  | inr differs ↦ inr (λ e. ground arith)
]

exception_Reads : (value : ℕ) → Reads value (match_exception_cause value)
unfolding match_exception_cause
exception_Reads value = test value value 0 _ _ (at value 0) (
    test value value 1 _ _ (at value 1) (
      test value value 2 _ _ (at value 2) (
        test value value 3 _ _ (at value 3) (
          test value value 4 _ _ (at value 4) (
            test value value 5 _ _ (at value 5) (
              test value value 6 _ _ (at value 6) (
                test value value 7 _ _ (at value 7) (
                  test value value 8 _ _ (at value 8) (
                    test value value 9 _ _ (at value 9) (
                      test value value 12 _ _ (at value 12) (
                        test value value 13 _ _ (at value 13) (
                          test value value 15 _ _ (at value 15) (
                            test value value 18 _ _ (at value 18)
                              (test value value 19 _ _ (at value 19) (inl refl)))))))))))))))

interrupt_Reads :
    (value code : ℕ)
    → code + 2 ^ 63 ≡ value
    → bit_xor value (2 ^ 63) ≡ code
    → Reads value (match_interrupt_cause value)
unfolding match_interrupt_cause
interrupt_Reads value code h off = rw off (
    test value code 1 _ _ (at_bit value code 1 h) (
      test value code 5 _ _ (at_bit value code 5 h) (
        test value code 9 _ _ (at_bit value code 9 h)
          (test value code 13 _ _ (at_bit value code 13 h) (inl refl)))))

is_interrupt-high : (value : ℕ) → value < usize_mod → (is_interrupt value ≡ true) ↔ (2 ^ 63 ≤ value)
unfolding is_interrupt
is_interrupt-high value h = ground (arith, bit_and_high 63 1 value)

match_cause-Reads : (value : ℕ) → value < usize_mod → Reads value (match_cause value)
unfolding match_cause
match_cause-Reads value h = elim (Bool-cases (is_interrupt value)) [
  | inl is_set ↦
      let high = (is_interrupt-high value h).0 is_set in
      let code = value - 2 ^ 63 in
      let whole : code + 2 ^ 63 ≡ value = omega arith in
      let off = subst (λ v. bit_xor v (2 ^ 63) ≡ code) whole (bit_xor_off 63 code (omega arith)) in
      rw is_set (interrupt_Reads value code whole off)
  | inr is_clear ↦ rw is_clear (exception_Reads value)
]

-- Each cause is read off its own value.
agrees :
    (c : Cause)
    → elim (value_of c) as (λ _. Type 0) [ none ↦ c ≡ unknown | some v ↦ match_cause v ≡ c ]
unfolding match_cause is_interrupt match_interrupt_cause match_exception_cause
agrees supervisor_software_interrupt = refl
agrees supervisor_timer_interrupt = refl
agrees supervisor_external_interrupt = refl
agrees counter_overflow_interrupt = refl
agrees instruction_address_misaligned = refl
agrees instruction_access_fault = refl
agrees illegal_instruction = refl
agrees breakpoint = refl
agrees load_address_misaligned = refl
agrees load_access_fault = refl
agrees store_or_amo_address_misaligned = refl
agrees store_or_amo_access_fault = refl
agrees user_environment_call = refl
agrees supervisor_environment_call = refl
agrees instruction_page_fault = refl
agrees load_page_fault = refl
agrees store_or_amo_page_fault = refl
agrees software_check = refl
agrees hardware_error = refl
agrees unknown = refl

-- For a 64-bit value and a known cause, `match_cause` reads the cause exactly from the value
-- that the architecture gives it.
pub match_cause_iff :
    (value : ℕ) (c : Cause)
    → value < usize_mod
    → c ≢ unknown
    → (match_cause value ≡ c) ↔ (value_of c ≡ some value)
match_cause_iff value c h ne = (
  λ e. elim (match_cause-Reads value h) [
    | inl none_known ↦ absurd (ne (sym e ∙ none_known))
    | inr read ↦ subst (λ k. value_of k ≡ some value) e read
  ],
  λ e.
      subst (λ o. elim o as (λ _. Type 0) [ none ↦ c ≡ unknown | some v ↦ match_cause v ≡ c ]) e
        (agrees c),
)
