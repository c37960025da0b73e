-- ===== src/Integer/Fields.antt =====
-- The bit fields of arith.h.
use processorfuzz.Base.{ℕ, ◌+◌, ◌-◌, ◌*◌, ◌/◌, ◌%◌, ◌^◌, ◌≤◌, ◌<◌, ◌≡◌, refl, sym, ap, ◌∙◌}
use processorfuzz.Base.{arith, some, bit_and, true, ltb, leb, ◌==◌}
use processorfuzz.Base.Bits.{
  all_below, all_below_sound, eq_below, bit_and_mask, bit_and_split, bit_and-zero,
}
use native.Mathlib.Nat.{
  one-le-pow, pow-le-pow_right, mod-lt, mod-eq_of_lt, mul-le-mul_left, div-add-mod',
}
use processorfuzz.Integer.{extract64, make_mask64}

ones_table : all_below 65 (λ len. (2 ^ 64 - 1) / 2 ^ (64 - len) == 2 ^ len - 1) ≡ true
unfolding all_below
ones_table = refl

ones : (len : ℕ) → len ≤ 64 → (2 ^ 64 - 1) / 2 ^ (64 - len) ≡ 2 ^ len - 1
ones len h =
    eq_below 65 (λ n. (2 ^ 64 - 1) / 2 ^ (64 - n)) (λ n. 2 ^ n - 1) len ones_table (omega arith)

top_table : all_below 65 (λ len. ltb ((2 ^ len - 1) * 2 ^ (64 - len)) (2 ^ 64)) ≡ true
unfolding all_below
top_table = refl

top_field : (len : ℕ) → len ≤ 64 → (2 ^ len - 1) * 2 ^ (64 - len) < 2 ^ 64
top_field len h = ground (
  arith,
  all_below_sound 65 (λ n. ltb ((2 ^ n - 1) * 2 ^ (64 - n)) (2 ^ 64)) len top_table (omega arith),
)

module _ (v pos len : ℕ) (some_bits : 0 < len) (fits : len + pos ≤ 64) where
  -- The bits of a field.
  abbrev field : ℕ
  field = v / 2 ^ pos % 2 ^ len

  extract64_lem : extract64 v pos len ≡ some field
  unfolding extract64
  extract64_lem =
      let a : ltb 0 len ≡ true = ground arith in
      let b : leb (len + pos) 64 ≡ true = ground arith in
      rw (a, b, ones len (omega arith)) (ap some (bit_and_mask len (v / 2 ^ pos)))

  mask_fits : (2 ^ len - 1) * 2 ^ pos < 2 ^ 64
  mask_fits =
      let le = pow-le-pow_right {n = 2} (omega arith) {i = pos} {j = 64 - len} (omega arith) in
      omega (arith, top_field len (omega arith), mul-le-mul_left (2 ^ len - 1) le)

  make_mask64_lem : make_mask64 pos len ≡ some ((2 ^ len - 1) * 2 ^ pos)
  unfolding make_mask64
  make_mask64_lem =
      let a : ltb 0 len ≡ true = ground arith in
      let b : ltb pos 64 ≡ true = ground arith in
      let c : leb len 64 ≡ true = ground arith in
      rw (a, b, c, ones len (omega arith)) (ap some (mod-eq_of_lt mask_fits))

  masked : bit_and v ((2 ^ len - 1) * 2 ^ pos) ≡ field * 2 ^ pos
  masked =
      let p = one-le-pow pos 2 (omega arith) in
      ap (λ x. bit_and x ((2 ^ len - 1) * 2 ^ pos)) (sym (div-add-mod' v (2 ^ pos)))
      ∙ ap (bit_and (v / 2 ^ pos * 2 ^ pos + v % 2 ^ pos)) (omega arith)
      ∙ bit_and_split pos (v / 2 ^ pos) (2 ^ len - 1) (v % 2 ^ pos) 0 (mod-lt v (omega (arith, p)))
          (omega (arith, p))
      ∙ rw (bit_and_mask len (v / 2 ^ pos), bit_and-zero (v % 2 ^ pos)) (omega arith)

  -- For a field of at least one bit that ends within the 64 bits, `extract64` and `make_mask64` do
  -- not fail: `extract64` gives the field's bits, and `make_mask64` the mask that keeps the field in
  -- its place.
  pub extract64-make_mask64 :
      (f m : ℕ) × (extract64 v pos len ≡ some f)
      × (make_mask64 pos len ≡ some m)
      × (f ≡ v / 2 ^ pos % 2 ^ len)
      × (bit_and v m ≡ f * 2 ^ pos)
  extract64-make_mask64 =
      (field, (2 ^ len - 1) * 2 ^ pos, extract64_lem, make_mask64_lem, refl, masked)
