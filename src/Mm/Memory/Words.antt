-- ===== src/Mm/Memory/Words.antt =====
-- Reads after writes.
use hj.Base.{ℕ, zero, suc, ◌+◌, ◌*◌, ◌^◌, ◌≤◌, ◌<◌, ◌≡◌, ◌⊎◌}
use hj.Base.{ltb, leb, ◌&&◌, if◌then◌else◌, arith}
use hj.Mm.Memory.{Memory, byte_of, read_word, write_word, write_byte, clear_bytes}

write_word_at : (m : Memory) (a w k : ℕ) → k < 8 → write_word a w m (a + k) ≡ byte_of w k
unfolding write_word
write_word_at m a w k h = ground arith

write_word_first : (m : Memory) (a w : ℕ) → write_word a w m a ≡ byte_of w 0
unfolding write_word
write_word_first m a w = ground arith

pub write_word_ne : (m : Memory) (a w b : ℕ) → (b < a) ⊎ (a + 8 ≤ b) → write_word a w m b ≡ m b
unfolding write_word
write_word_ne m a w b h = ground arith

bytes_sum :
    (w : ℕ)
    → w < 2 ^ 64
    → byte_of w 0
        + byte_of w 1 * 2 ^ 8
        + byte_of w 2 * 2 ^ 16
        + byte_of w 3 * 2 ^ 24
        + byte_of w 4 * 2 ^ 32
        + byte_of w 5 * 2 ^ 40
        + byte_of w 6 * 2 ^ 48
        + byte_of w 7 * 2 ^ 56
      ≡ w
bytes_sum w h = omega arith

pub read_word-write_word_self :
    (m : Memory) (a w : ℕ) → w < 2 ^ 64 → read_word (write_word a w m) a ≡ w
unfolding read_word
read_word-write_word_self m a w h = omega (
  arith,
  bytes_sum w h,
  write_word_first m a w,
  write_word_at m a w 1 (omega arith),
  write_word_at m a w 2 (omega arith),
  write_word_at m a w 3 (omega arith),
  write_word_at m a w 4 (omega arith),
  write_word_at m a w 5 (omega arith),
  write_word_at m a w 6 (omega arith),
  write_word_at m a w 7 (omega arith),
)

-- A word depends on its eight bytes alone.
pub read_word_ext :
    (m n : Memory) (a : ℕ)
    → ((b : ℕ) → a ≤ b → b < a + 8 → n b ≡ m b)
    → read_word n a ≡ read_word m a
unfolding read_word
read_word_ext m n a h = omega (
  arith,
  h a (omega arith) (omega arith),
  h (a + 1) (omega arith) (omega arith),
  h (a + 2) (omega arith) (omega arith),
  h (a + 3) (omega arith) (omega arith),
  h (a + 4) (omega arith) (omega arith),
  h (a + 5) (omega arith) (omega arith),
  h (a + 6) (omega arith) (omega arith),
  h (a + 7) (omega arith) (omega arith),
)

pub read_word-write_word_ne :
    (m : Memory) (a w b : ℕ)
    → (b + 8 ≤ a) ⊎ (a + 8 ≤ b)
    → read_word (write_word a w m) b ≡ read_word m b
read_word-write_word_ne m a w b h =
    read_word_ext m (write_word a w m) b λ c p q. write_word_ne m a w c (omega arith)

pub clear_bytes_at :
    (n a : ℕ) (m : Memory) (b : ℕ)
    → clear_bytes n a m b ≡ (if leb a b && ltb b (a + n) then 0 else m b)
unfolding clear_bytes
clear_bytes_at zero a m b = ground arith
clear_bytes_at (suc n) a m b = ground (arith, clear_bytes_at n (a + 1) (write_byte a 0 m) b)

pub read_word_zero :
    (m : Memory) (a : ℕ) → ((b : ℕ) → a ≤ b → b < a + 8 → m b ≡ 0) → read_word m a ≡ 0
unfolding read_word
read_word_zero m a h = read_word_ext (λ _. 0) m a h
