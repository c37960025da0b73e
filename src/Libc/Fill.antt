-- ===== src/Libc/Fill.antt =====
-- `memset` of string.c fills a block.
use processorfuzz.Base.{ℕ, zero, suc, ◌+◌, ◌-◌, ◌*◌, ◌/◌, ◌%◌, ◌^◌, ◌<◌, ◌≡◌, ◌∙◌, refl, inl, inr}
use processorfuzz.Base.{some, true, ap, fun_ext, arith, Bool-cases, bit_and, bit_or, ◌==◌, ◌&&◌}
use processorfuzz.Base.{leb, ltb, lt→ltb, le→ltb_false, if◌then◌else◌}
use processorfuzz.Base.Bits.{bit_and_mask, eq_below, all_below}
use processorfuzz.Libc.{fill_word, fill_words, fill_bytes, memset}
use processorfuzz.Libc.Bytes.{Memory, store, store64, byte_of}
use processorfuzz.Libc.Copy.{len_of_aligned}

-- `n` bytes at `d` hold `v`, and all other bytes are as before.
unfoldable pub filled : Memory → ℕ → ℕ → ℕ → Memory
filled m d v n a = if leb d a && ltb a (d + n) then v else m a

filled-zero : (m : Memory) (d v : ℕ) → filled m d v 0 ≡ m
unfolding filled
filled-zero m d v = fun_ext λ a. ground arith

filled_next :
    (m : Memory) (d v k n n' : ℕ)
    → k + n ≡ n'
    → filled (filled m d v k) (d + k) v n ≡ filled m d v n'
unfolding filled
filled_next m d v k n n' e = fun_ext λ a. ground arith

store-eq-filled : (m : Memory) (d v : ℕ) → store m d v ≡ filled m d v 1
unfolding filled store
store-eq-filled m d v = fun_ext λ a. ground arith

-- The shifts and ors of `memset` repeat a byte eight times.
spread_table : all_below 256 (λ b. fill_word b == b * 0x0101_0101_0101_0101) ≡ true
unfolding fill_word all_below
spread_table = refl

mask_mod : (b : ℕ) → bit_and b 0xff ≡ bit_and (b % 2 ^ 8) 0xff
mask_mod b = omega (arith, bit_and_mask 8 b, bit_and_mask 8 (b % 2 ^ 8))

fill_word_mod : (b : ℕ) → fill_word b ≡ fill_word (b % 2 ^ 8)
unfolding fill_word
fill_word_mod b = cc (mask_mod b)

byte_of-spread : (b i : ℕ) → b < 256 → i < 8 → byte_of (b * 0x0101_0101_0101_0101) i ≡ b
unfolding byte_of
byte_of-spread b zero h lt = omega arith
byte_of-spread b (suc zero) h lt = omega arith
byte_of-spread b (suc (suc zero)) h lt = omega arith
byte_of-spread b (suc (suc (suc zero))) h lt = omega arith
byte_of-spread b (suc (suc (suc (suc zero)))) h lt = omega arith
byte_of-spread b (suc (suc (suc (suc (suc zero))))) h lt = omega arith
byte_of-spread b (suc (suc (suc (suc (suc (suc zero)))))) h lt = omega arith
byte_of-spread b (suc (suc (suc (suc (suc (suc (suc zero))))))) h lt = omega arith
byte_of-spread b (suc (suc (suc (suc (suc (suc (suc (suc i)))))))) h lt = absurd (omega arith)

fill_word_lem : (b : ℕ) → fill_word b ≡ b % 2 ^ 8 * 0x0101_0101_0101_0101
fill_word_lem b =
    fill_word_mod b
    ∙ eq_below 256 fill_word (λ b. b * 0x0101_0101_0101_0101) (b % 2 ^ 8) spread_table (omega arith)

store64-eq-filled : (m : Memory) (d b : ℕ) → store64 m d (fill_word b) ≡ filled m d (b % 2 ^ 8) 8
unfolding filled store64
store64-eq-filled m d b =
    fun_ext λ a. ground (arith, fill_word_lem b, byte_of-spread (b % 2 ^ 8) (a - d))

fill_bytes-eq-filled :
    (fuel : ℕ) (m : Memory) (b d n end : ℕ)
    → d + n ≡ end
    → n < fuel
    → fill_bytes fuel m b d end ≡ some (filled m d (b % 2 ^ 8) n)
unfolding fill_bytes
fill_bytes-eq-filled zero m b d n end e h = absurd (omega arith)
fill_bytes-eq-filled (suc fuel) m b d zero end e h =
    rw (le→ltb_false d end (omega arith), filled-zero m d (b % 2 ^ 8))
fill_bytes-eq-filled (suc fuel) m b d (suc n) end e h =
    rw (lt→ltb d end (omega arith), store-eq-filled m d (b % 2 ^ 8))
      (fill_bytes-eq-filled fuel (filled m d (b % 2 ^ 8) 1) b (d + 1) n end (omega arith)
          (omega arith)
        ∙ ap some (filled_next m d (b % 2 ^ 8) 1 n (suc n) (omega arith)))

fill_words-eq-filled :
    (fuel : ℕ) (m : Memory) (b d k end : ℕ)
    → d + 8 * k ≡ end
    → k < fuel
    → fill_words fuel m (fill_word b) d end ≡ some (filled m d (b % 2 ^ 8) (8 * k))
unfolding fill_words
fill_words-eq-filled zero m b d k end e h = absurd (omega arith)
fill_words-eq-filled (suc fuel) m b d zero end e h =
    rw (le→ltb_false d end (omega arith), filled-zero m d (b % 2 ^ 8))
fill_words-eq-filled (suc fuel) m b d (suc k) end e h =
    rw (lt→ltb d end (omega arith), store64-eq-filled m d b)
      (fill_words-eq-filled fuel (filled m d (b % 2 ^ 8) 8) b (d + 8) k end (omega arith)
          (omega arith)
        ∙ ap some (filled_next m d (b % 2 ^ 8) 8 (8 * k) (8 * suc k) (omega arith)))

-- With more fuel than bytes `memset` returns `dest`, and the memory in which each of the `len`
-- bytes from `dest` holds the low byte of `byte` and all others are as before, by either loop.
pub memset-eq-filled :
    (fuel : ℕ) (m : Memory) (dest byte len : ℕ)
    → len < fuel
    → memset fuel m dest byte len ≡ some (filled m dest (byte % 2 ^ 8) len, dest)
unfolding memset
memset-eq-filled fuel m dest byte len h = elim (Bool-cases (bit_and (bit_or dest len) 7 == 0)) [
  | inl e ↦
      let q = len_of_aligned dest len e in
      rw (e, fill_words-eq-filled fuel m byte dest (len / 8) (dest + len) (rw q) (omega arith), q)
  | inr e ↦ rw (e, fill_bytes-eq-filled fuel m byte dest len (dest + len) refl h)
]
