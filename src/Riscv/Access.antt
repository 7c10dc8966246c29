-- ===== src/Riscv/Access.antt =====
-- riscv/src/macros.rs: the reads and writes of a register, and their uses in sepc.rs and stval.rs.
use hj.Base.{ℕ}

-- The instructions `csrr` and `csrw`: the value that is read, and the new register.
unfoldable pub csrr : ℕ → ℕ
csrr csr = csr

unfoldable pub csrw : (value csr : ℕ) → ℕ
csrw value csr = value

unfoldable pub read_sepc : ℕ → ℕ
unfolding csrr
read_sepc csr = csrr csr

unfoldable pub write_sepc : (value csr : ℕ) → ℕ
unfolding csrw
write_sepc value csr = csrw value csr

unfoldable pub read_stval : ℕ → ℕ
unfolding csrr
read_stval csr = csrr csr
