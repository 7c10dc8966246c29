-- ===== src/Mm/Memory.antt =====
-- Memory as the kernel sees it through its direct map: a byte at each kernel virtual address.
-- A page table entry is a little-endian 64-bit word.
pub mod Words
use package.hj.Base.{ℕ, zero, suc, ◌+◌, ◌-◌, ◌*◌, ◌/◌, ◌%◌, ◌^◌, ◌&&◌, ltb, leb, ◌==◌}
use package.hj.Base.{if◌then◌else◌, List, [], ◌∷◌}

abbrev pub Memory : Type 0
Memory = ℕ → ℕ

-- `ptr.write(v)` of a byte.
unfoldable pub write_byte : ℕ → ℕ → Memory → Memory
write_byte a v m = λ b. if b == a then v else m b

-- The `k`-th byte of a word.
abbrev pub byte_of : ℕ → ℕ → ℕ
byte_of w k = w / 2 ^ (8 * k) % 256

unfoldable pub read_word : Memory → ℕ → ℕ
read_word m a =
    m a
    + m (a + 1) * 2 ^ 8
    + m (a + 2) * 2 ^ 16
    + m (a + 3) * 2 ^ 24
    + m (a + 4) * 2 ^ 32
    + m (a + 5) * 2 ^ 40
    + m (a + 6) * 2 ^ 48
    + m (a + 7) * 2 ^ 56

unfoldable pub write_word : ℕ → ℕ → Memory → Memory
write_word a w m = λ b. if leb a b && ltb b (a + 8) then byte_of w (b - a) else m b

-- The loop that clears `n` bytes from address `a` on.
unfoldable pub clear_bytes : ℕ → ℕ → Memory → Memory
unfolding write_byte
clear_bytes zero a m = m
clear_bytes (suc n) a m = clear_bytes n (a + 1) (write_byte a 0 m)

-- `copy_from_slice` of `n` bytes at `src` to `dst`.
unfoldable pub copy_bytes : ℕ → ℕ → ℕ → Memory → Memory
copy_bytes n src dst m = λ b. if leb dst b && ltb b (dst + n) then m (src + (b - dst)) else m b

-- The loop that writes the bytes of a slice from address `a` on.
unfoldable pub store_bytes : ℕ → List ℕ → Memory → Memory
unfolding write_byte
store_bytes a [] m = m
store_bytes a (v ∷ vs) m = store_bytes (a + 1) vs (write_byte a v m)
