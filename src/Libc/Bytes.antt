-- ===== src/Libc/Bytes.antt =====
-- Byte-addressed memory, the little-endian words of RV64 in it, and C's `int` results.
use processorfuzz.Base.{ℕ, ◌+◌, ◌-◌, ◌*◌, ◌/◌, ◌%◌, ◌^◌, ◌<◌}
use processorfuzz.Base.{ltb, leb, ◌==◌, if◌then◌else◌, ◌&&◌}

abbrev pub Memory : Type 0
Memory = ℕ → ℕ

abbrev pub IsBytes : Memory → Type 0
IsBytes m = (a : ℕ) → m a < 256

abbrev pub u64 : ℕ → ℕ
u64 n = n % 2 ^ 64

unfoldable pub store : Memory → ℕ → ℕ → Memory
store m p v a = if a == p then v else m a

unfoldable pub load64 : Memory → ℕ → ℕ
load64 m p =
    m p
    + 0x100 * m (p + 1)
    + 0x1_0000 * m (p + 2)
    + 0x100_0000 * m (p + 3)
    + 0x1_0000_0000 * m (p + 4)
    + 0x100_0000_0000 * m (p + 5)
    + 0x1_0000_0000_0000 * m (p + 6)
    + 0x100_0000_0000_0000 * m (p + 7)

-- The byte of a word at an offset.
unfoldable pub byte_of : ℕ → ℕ → ℕ
byte_of w i = w / 256 ^ i % 256

unfoldable pub store64 : Memory → ℕ → ℕ → Memory
store64 m p w a = if leb p a && ltb a (p + 8) then byte_of w (a - p) else m a

-- A C `int` that is a difference of two unsigned characters.
pub data ℤ : Type 0 where
  pos : ℕ → ℤ
  negsuc : ℕ → ℤ

abbrev pub diff : ℕ → ℕ → ℤ
diff a b = if leb b a then pos (a - b) else negsuc (b - a - 1)
