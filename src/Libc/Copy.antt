-- ===== src/Libc/Copy.antt =====
-- `memcpy` and `strcpy` of string.c copy blocks.
use processorfuzz.Base.{ℕ, zero, suc, ◌+◌, ◌*◌, ◌/◌, ◌<◌, ◌≡◌, ◌∙◌, refl, inl, inr}
use processorfuzz.Base.{
  some, true, false, List, [], ◌∷◌, length, ap, arith, Bool-cases, lt→ltb, le→ltb_false, bit_and,
  bit_or, ◌==◌,
}
use processorfuzz.Base.Bits.{bit_and_seven, or_low_clear}
use processorfuzz.Libc.{copy_words, copy_bytes, memcpy, copy_string, strcpy}
use processorfuzz.Libc.Bytes.{Memory, IsBytes}
use processorfuzz.Libc.Copied.{copied, CopiesUp, copied-zero, copied-IsBytes, copied-copied}
use processorfuzz.Libc.Text.{IsText, IsText-copied}
use processorfuzz.Libc.Copied.{store-eq-copied, store64-load64-eq-copied}

module _ (m : Memory) (d s : ℕ) where
  copied_next :
      (k n n' : ℕ)
      → CopiesUp d s n'
      → k + n ≡ n'
      → copied (copied m d s k) (d + k) (s + k) n ≡ copied m d s n'
  copied_next k n n' up e = copied-copied m d s k n (rw e up) ∙ ap (copied m d s) e

copy_bytes-eq-copied :
    (fuel : ℕ) (m : Memory) (d s n end : ℕ)
    → CopiesUp d s n
    → d + n ≡ end
    → n < fuel
    → copy_bytes fuel m d s end ≡ some (copied m d s n)
unfolding copy_bytes
copy_bytes-eq-copied zero m d s n end up e h = absurd (omega arith)
copy_bytes-eq-copied (suc fuel) m d s zero end up e h =
    rw (le→ltb_false d end (omega arith), copied-zero m d s)
copy_bytes-eq-copied (suc fuel) m d s (suc n) end up e h =
    rw (lt→ltb d end (omega arith), store-eq-copied m d s)
      (copy_bytes-eq-copied fuel (copied m d s 1) (d + 1) (s + 1) n end (omega arith) (omega arith)
          (omega arith)
        ∙ ap some (copied_next m d s 1 n (suc n) up (omega arith)))

copy_words-eq-copied :
    (fuel : ℕ) (m : Memory) (d s k end : ℕ)
    → IsBytes m
    → CopiesUp d s (8 * k)
    → d + 8 * k ≡ end
    → k < fuel
    → copy_words fuel m d s end ≡ some (copied m d s (8 * k))
unfolding copy_words
copy_words-eq-copied zero m d s k end b up e h = absurd (omega arith)
copy_words-eq-copied (suc fuel) m d s zero end b up e h =
    rw (le→ltb_false d end (omega arith), copied-zero m d s)
copy_words-eq-copied (suc fuel) m d s (suc k) end b up e h =
    rw (lt→ltb d end (omega arith), store64-load64-eq-copied m d s b)
      (copy_words-eq-copied fuel (copied m d s 8) (d + 8) (s + 8) k end (copied-IsBytes m d s 8 b)
          (omega arith) (omega arith) (omega arith)
        ∙ ap some (copied_next m d s 8 (8 * k) (8 * suc k) up (omega arith)))

pub len_of_aligned : (a len : ℕ) → (bit_and (bit_or a len) 7 == 0) ≡ true → 8 * (len / 8) ≡ len
len_of_aligned a len e = ground (arith, bit_and_seven (bit_or a len), or_low_clear a len)

-- With more fuel than bytes `memcpy` returns `dest`, and the memory in which the `len` bytes from
-- `src` stand at `dest` and all others are as before, by either loop, if the destination does not
-- begin inside the source.
pub memcpy-eq-copied :
    (fuel : ℕ) (m : Memory) (dest src len : ℕ)
    → IsBytes m
    → CopiesUp dest src len
    → len < fuel
    → memcpy fuel m dest src len ≡ some (copied m dest src len, dest)
unfolding memcpy
memcpy-eq-copied fuel m dest src len b up h =
    elim (Bool-cases (bit_and (bit_or (bit_or dest src) len) 7 == 0)) [
      | inl e ↦
          let q = len_of_aligned (bit_or dest src) len e in
          rw (
            e,
            copy_words-eq-copied fuel m dest src (len / 8) (dest + len) b (rw q up) (rw q)
                (omega arith),
            q,
          )
      | inr e ↦ rw (e, copy_bytes-eq-copied fuel m dest src len (dest + len) up refl h)
    ]

copy_string-eq-copied :
    (fuel : ℕ) (m : Memory) (d s : ℕ) (cs : List ℕ)
    → CopiesUp d s (length cs + 1)
    → IsText m s cs
    → length cs < fuel
    → copy_string fuel m d s ≡ some (copied m d s (length cs + 1))
unfolding copy_string
copy_string-eq-copied zero m d s cs up t h = absurd (omega arith)
copy_string-eq-copied (suc fuel) m d s [] up t h =
    let e : (m s == 0) ≡ true = ground arith in rw (e, store-eq-copied m d s)
copy_string-eq-copied (suc fuel) m d s (c ∷ cs) up t h =
    let e : (m s == 0) ≡ false = ground arith in
    rw (e, store-eq-copied m d s)
      (copy_string-eq-copied fuel (copied m d s 1) (d + 1) (s + 1) cs (omega arith)
          (IsText-copied m d s cs up t.2) (omega arith)
        ∙ ap some (copied_next m d s 1 (length cs + 1) (suc (length cs) + 1) up (omega arith)))

-- `strcpy` copies a string with its zero byte, returns `dest`, and changes no other byte, if the
-- destination does not begin inside the source.
strcpy-eq-copied :
    (fuel : ℕ) (m : Memory) (dest src : ℕ) (cs : List ℕ)
    → CopiesUp dest src (length cs + 1)
    → IsText m src cs
    → length cs < fuel
    → strcpy fuel m dest src ≡ some (copied m dest src (length cs + 1), dest)
unfolding strcpy
strcpy-eq-copied fuel m dest src cs up t h = rw (copy_string-eq-copied fuel m dest src cs up t h)
