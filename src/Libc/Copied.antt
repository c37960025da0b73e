-- ===== src/Libc/Copied.antt =====
-- Block copies as a function of the memory before: what `memcpy` and `strcpy` of string.c are
-- held to.
use processorfuzz.Base.{ℕ, zero, suc, ◌+◌, ◌-◌, ◌≤◌, ◌<◌, ◌≡◌, ◌⊎◌, ◌&&◌}
use processorfuzz.Base.{fun_ext, arith, ltb, leb, if◌then◌else◌}
use processorfuzz.Libc.Bytes.{Memory, IsBytes, store, load64, store64, byte_of}

-- `n` bytes from `s` stand at `d`, and all other bytes are as before.
unfoldable pub copied : Memory → ℕ → ℕ → ℕ → Memory
copied m d s n a = if leb d a && ltb a (d + n) then m (s + (a - d)) else m a

-- A copy that runs upwards reads nothing that it has overwritten.
abbrev pub CopiesUp : ℕ → ℕ → ℕ → Type 0
CopiesUp d s n = (d ≤ s) ⊎ (s + n ≤ d)

pub copied-zero : (m : Memory) (d s : ℕ) → copied m d s 0 ≡ m
unfolding copied
copied-zero m d s = fun_ext λ a. ground arith

pub copied-IsBytes : (m : Memory) (d s n : ℕ) → IsBytes m → IsBytes (copied m d s n)
unfolding copied
copied-IsBytes m d s n h a = ground (arith, h a, h (s + (a - d)))

-- A copy in two parts is one copy.
pub copied-copied :
    (m : Memory) (d s k n : ℕ)
    → CopiesUp d s (k + n)
    → copied (copied m d s k) (d + k) (s + k) n ≡ copied m d s (k + n)
unfolding copied
copied-copied m d s k n up = fun_ext λ a. ground arith

pub store-eq-copied : (m : Memory) (d s : ℕ) → store m d (m s) ≡ copied m d s 1
unfolding copied store
store-eq-copied m d s = fun_ext λ a. ground arith

-- The bytes of a word that was loaded are the bytes that it was loaded from.
pub byte_of-load64 : (m : Memory) (s i : ℕ) → IsBytes m → i < 8 → byte_of (load64 m s) i ≡ m (s + i)
unfolding byte_of load64
byte_of-load64 m s zero h lt =
    ground (arith, h s, h (s + 1), h (s + 2), h (s + 3), h (s + 4), h (s + 5), h (s + 6), h (s + 7))
byte_of-load64 m s (suc zero) h lt =
    ground (arith, h s, h (s + 1), h (s + 2), h (s + 3), h (s + 4), h (s + 5), h (s + 6), h (s + 7))
byte_of-load64 m s (suc (suc zero)) h lt =
    ground (arith, h s, h (s + 1), h (s + 2), h (s + 3), h (s + 4), h (s + 5), h (s + 6), h (s + 7))
byte_of-load64 m s (suc (suc (suc zero))) h lt =
    ground (arith, h s, h (s + 1), h (s + 2), h (s + 3), h (s + 4), h (s + 5), h (s + 6), h (s + 7))
byte_of-load64 m s (suc (suc (suc (suc zero)))) h lt =
    ground (arith, h s, h (s + 1), h (s + 2), h (s + 3), h (s + 4), h (s + 5), h (s + 6), h (s + 7))
byte_of-load64 m s (suc (suc (suc (suc (suc zero))))) h lt =
    ground (arith, h s, h (s + 1), h (s + 2), h (s + 3), h (s + 4), h (s + 5), h (s + 6), h (s + 7))
byte_of-load64 m s (suc (suc (suc (suc (suc (suc zero)))))) h lt =
    ground (arith, h s, h (s + 1), h (s + 2), h (s + 3), h (s + 4), h (s + 5), h (s + 6), h (s + 7))
byte_of-load64 m s (suc (suc (suc (suc (suc (suc (suc zero))))))) h lt =
    ground (arith, h s, h (s + 1), h (s + 2), h (s + 3), h (s + 4), h (s + 5), h (s + 6), h (s + 7))
byte_of-load64 m s (suc (suc (suc (suc (suc (suc (suc (suc i)))))))) h lt = absurd (omega arith)

pub store64-load64-eq-copied :
    (m : Memory) (d s : ℕ) → IsBytes m → store64 m d (load64 m s) ≡ copied m d s 8
unfolding copied store64
store64-load64-eq-copied m d s h = fun_ext λ a. ground (arith, byte_of-load64 m s (a - d) h)
