-- ===== src/Vm/Lfsr.antt =====
-- The two shift registers of the virtual-memory environment: `lfsr63` of
-- Template/include/v/vm.c and `LFSR_NEXT` of Template/include/v/riscv_test.h.
use processorfuzz.Base.{ℕ, zero, suc, ◌+◌, ◌*◌, ◌/◌, ◌%◌, ◌^◌, ◌<◌, ◌≡◌, ◌≢◌, refl}
use processorfuzz.Base.{Bool, true, not, ◌&&◌, ◌||◌, arith, ◌==◌, ltb, bit_and, bit_or, bit_xor}
use processorfuzz.Base.Bits.{
  bit_xor_low, bit_or_fields, bit_or_comm, all_below, all_below_sound, eq_below,
}

unfoldable pub lfsr63 : ℕ → ℕ
lfsr63 x = let bit = bit_and (bit_xor x (x / 2 ^ 1)) 1 in bit_or (x / 2 ^ 1) (bit * 2 ^ 62 % 2 ^ 64)

unfoldable pub lfsr_next : ℕ → ℕ
lfsr_next x = bit_or (bit_and (bit_xor x (x / 2 ^ 1)) 1 * 2 ^ 5) (x / 2 ^ 1)

-- The step back.
unfoldable pub lfsr63_prev : ℕ → ℕ
lfsr63_prev y = y % 2 ^ 62 * 2 + (y / 2 ^ 62 + y % 2) % 2

lfsr63_sum : (x : ℕ) → x < 2 ^ 63 → lfsr63 x ≡ (x % 2 + x / 2 % 2) % 2 * 2 ^ 62 + x / 2
unfolding lfsr63
lfsr63_sum x h = ground (
  arith,
  bit_xor_low x (x / 2),
  bit_or_comm (x / 2) (bit_and (bit_xor x (x / 2)) 1 * 2 ^ 62),
  bit_or_fields 62 (bit_and (bit_xor x (x / 2)) 1) (x / 2) (omega arith),
)

-- On 63-bit words `lfsr63` is a bijection, with `lfsr63_prev` for its inverse: the result is a
-- 63-bit word, stepping back gives the argument, and a nonzero word never becomes zero.
pub lfsr63_bijective :
    (x : ℕ)
    → x < 2 ^ 63
    → (lfsr63 x < 2 ^ 63)
      × (lfsr63_prev (lfsr63 x) ≡ x)
      × (lfsr63 (lfsr63_prev x) ≡ x)
      × (x ≢ 0 → lfsr63 x ≢ 0)
unfolding lfsr63_prev
lfsr63_bijective x h = (
  omega (arith, lfsr63_sum x h),
  omega (arith, lfsr63_sum x h),
  omega (arith, lfsr63_sum (lfsr63_prev x) (omega arith)),
  omega (arith, lfsr63_sum x h),
)

-- The state after `n` steps of `LFSR_NEXT`.
unfoldable pub lfsr_after : ℕ → ℕ → ℕ
lfsr_after zero x = x
lfsr_after (suc n) x = lfsr_after n (lfsr_next x)

abbrev next_test : ℕ → Bool
next_test x = ltb (lfsr_next x) 64 && (x == 0 || not (lfsr_next x == 0))

abbrev distinct_at : ℕ → ℕ → Bool
distinct_at k x = x == 0 || not (lfsr_after k x == x)

abbrev distinct_test : ℕ → Bool
distinct_test k = k == 0 || all_below 64 (distinct_at k)

lfsr_next_table : all_below 128 next_test ≡ true
unfolding lfsr_next all_below
lfsr_next_table = refl

period_table : all_below 64 (λ x. lfsr_after 63 x == x) ≡ true
unfolding lfsr_after lfsr_next all_below
period_table = refl

distinct_table : all_below 63 distinct_test ≡ true
unfolding lfsr_after lfsr_next all_below
distinct_table = refl

-- From a 7-bit state that is not zero, one step leads to a 6-bit state that is not zero.
pub lfsr_next_bounds : (x : ℕ) → x < 128 → x ≢ 0 → (lfsr_next x < 64) × (lfsr_next x ≢ 0)
lfsr_next_bounds x h ne = ground (arith, all_below_sound 128 next_test x lfsr_next_table h)

-- A 6-bit state comes back after 63 steps.
pub lfsr_after_period : (x : ℕ) → x < 64 → lfsr_after 63 x ≡ x
lfsr_after_period x h = eq_below 64 (lfsr_after 63) (λ x. x) x period_table h

-- A 6-bit state that is not zero does not come back sooner.
pub lfsr_after_distinct : (k x : ℕ) → k < 63 → k ≢ 0 → x < 64 → x ≢ 0 → lfsr_after k x ≢ x
lfsr_after_distinct k x hk nk hx nx = ground (
  arith,
  all_below_sound 63 distinct_test k distinct_table hk,
  all_below_sound 64 (distinct_at k) x,
)
