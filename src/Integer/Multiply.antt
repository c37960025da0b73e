-- ===== src/Integer/Multiply.antt =====
-- The multiplications of arith.h give the high half of the 128-bit product.
use processorfuzz.Base.{ℕ, ◌+◌, ◌-◌, ◌*◌, ◌/◌, ◌%◌, ◌^◌, ◌≤◌, ◌<◌, ◌≡◌, refl, sym, ap, ◌∙◌}
use processorfuzz.Base.{Bool-cases, inl, inr, true, if◌then◌else◌, refl, bit_or, arith}
use processorfuzz.Base.Bits.{bit_or_fields}
use native.Mathlib.Nat.{mul-le-mul, mul_comm}
use processorfuzz.Libc.Bytes.{u64}
use processorfuzz.Integer.{mulhu, mulh, mulhsu, u32, high_with_sign, is_negative, negate64}

-- The products of half words, at their places, make up the product.
expand :
    (p r q s : ℕ)
    → (p * 2 ^ 32 + r) * (q * 2 ^ 32 + s) ≡ p * q * 2 ^ 64 + (p * s + r * q) * 2 ^ 32 + r * s
expand p r q s = omega arith

half_product : (x y : ℕ) → x < 2 ^ 32 → y < 2 ^ 32 → x * y ≤ 0xffff_fffe_0000_0001
half_product x y hx hy =
    mul-le-mul {n₁ = x} {m₁ = y} {n₂ = 0xffff_ffff} {m₂ = 0xffff_ffff} (omega arith) (omega arith)

-- The carries of `mulhu`, for any four partial products that fit.
module _ (p00 p01 p10 p11 : ℕ) (h00 : p00 ≤ 0xffff_fffe_0000_0001)
    (h01 : p01 ≤ 0xffff_fffe_0000_0001) (h10 : p10 ≤ 0xffff_fffe_0000_0001)
    (h11 : p11 ≤ 0xffff_fffe_0000_0001) where
  abbrev t1 : ℕ
  t1 = u64 (u64 p10 + u64 p00 / 2 ^ 32)

  abbrev t2 : ℕ
  t2 = u64 (u64 p01 + u32 t1)

  abbrev t3 : ℕ
  t3 = u64 (u64 (u64 p11 + u32 (t1 / 2 ^ 32)) + t2 / 2 ^ 32)

  t1_lem : t1 ≡ p10 + p00 / 2 ^ 32
  t1_lem = omega arith

  t2_lem : t2 ≡ p01 + u32 (p10 + p00 / 2 ^ 32)
  t2_lem = omega (arith, t1_lem)

  t3_lem : t3 ≡ (p11 * 2 ^ 64 + (p10 + p01) * 2 ^ 32 + p00) / 2 ^ 64
  t3_lem = omega (arith, t1_lem, t2_lem)

  carries :
      bit_or (u64 (u32 (t3 / 2 ^ 32) * 2 ^ 32)) (u32 t3)
      ≡ (p11 * 2 ^ 64 + (p10 + p01) * 2 ^ 32 + p00) / 2 ^ 64
  carries =
      let fits : u64 (u32 (t3 / 2 ^ 32) * 2 ^ 32) ≡ t3 / 2 ^ 32 * 2 ^ 32 = omega arith in
      rw fits (omega (arith, bit_or_fields 32 (t3 / 2 ^ 32) (u32 t3) (omega arith), t3_lem))

low : (n : ℕ) → n % 2 ^ 32 < 2 ^ 32
low n = omega arith

high : (n : ℕ) → n < 2 ^ 64 → n / 2 ^ 32 < 2 ^ 32
high n h = omega arith

join : (n : ℕ) → n / 2 ^ 32 * 2 ^ 32 + n % 2 ^ 32 ≡ n
join n = omega arith

-- `mulhu` of two words, which adds up products of half words with their carries, is the high word of
-- their exact product.
pub mulhu-eq-high : (a b : ℕ) → a < 2 ^ 64 → b < 2 ^ 64 → mulhu a b ≡ a * b / 2 ^ 64
unfolding mulhu
mulhu-eq-high a b ha hb =
    carries (u32 a * u32 b) (u32 a * (b / 2 ^ 32)) (a / 2 ^ 32 * u32 b) (a / 2 ^ 32 * (b / 2 ^ 32))
      (half_product _ _ (low a) (low b)) (half_product _ _ (low a) (high b hb))
      (half_product _ _ (high a ha) (low b)) (half_product _ _ (high a ha) (high b hb))
    ∙ ap (λ n. n / 2 ^ 64)
        (sym (expand (a / 2 ^ 32) (a % 2 ^ 32) (b / 2 ^ 32) (b % 2 ^ 32))
          ∙ ap (λ x. x * (b / 2 ^ 32 * 2 ^ 32 + b % 2 ^ 32)) (join a)
          ∙ ap (λ x. a * x) (join b))

-- A word as a signed number, in 128 bits of two's complement.
abbrev pub sext128 : ℕ → ℕ
sext128 a = if is_negative a then 2 ^ 128 - 2 ^ 64 + a else a

-- The high word of a negative product `x`, from its magnitude `p` and its low word, that of `y`.
negative_high :
    (p x y a b n : ℕ)
    → p < 2 ^ 128
    → a * b ≡ y
    → x + p ≡ 2 ^ 128 * n
    → y + p ≡ 2 ^ 64 * n
    → high_with_sign true (p / 2 ^ 64) a b ≡ x % 2 ^ 128 / 2 ^ 64
negative_high p x y a b n fits e hx hy = rw e (ground arith)

product_fits : (x y : ℕ) → x ≤ 2 ^ 64 → y < 2 ^ 64 → x * y < 2 ^ 128
product_fits x y hx hy =
    let h = mul-le-mul {n₁ = x} {m₁ = y} {n₂ = 2 ^ 64} {m₂ = 2 ^ 64 - 1} hx (omega arith) in
    omega (arith, h)

-- A negative factor, from its magnitude `m`.
negative_factor :
    (a m b : ℕ)
    → m + a ≡ 2 ^ 64
    → a < 2 ^ 64
    → m < 2 ^ 64
    → b < 2 ^ 64
    → high_with_sign true (mulhu m b) a b ≡ (2 ^ 128 - 2 ^ 64 + a) * b % 2 ^ 128 / 2 ^ 64
negative_factor a m b e ha hm hb =
    let times = ap (λ x. x * b) e in
    ap (λ r. high_with_sign true r a b) (mulhu-eq-high m b hm hb)
    ∙ negative_high (m * b) ((2 ^ 128 - 2 ^ 64 + a) * b) (a * b) a b b
        (product_fits m b (omega arith) hb) refl (omega (arith, times)) (omega (arith, times))

-- `mulhsu` of two words is the high word of the 128-bit product of the first, sign-extended to 128
-- bits, and the second.
pub mulhsu-eq-high :
    (a b : ℕ) → a < 2 ^ 64 → b < 2 ^ 64 → mulhsu a b ≡ sext128 a * b % 2 ^ 128 / 2 ^ 64
unfolding mulhsu
mulhsu-eq-high a b ha hb = elim (Bool-cases (is_negative a)) [
  | inl t ↦
      let le : 2 ^ 63 ≤ a = ground arith in
      rw t (negative_factor a (negate64 a) b (omega arith) ha (omega arith) hb)
  | inr f ↦
      let fits = product_fits a b (omega arith) hb in rw f (omega (arith, mulhu-eq-high a b ha hb))
]

negative_factors :
    (a m b n : ℕ)
    → m + a ≡ 2 ^ 64
    → n + b ≡ 2 ^ 64
    → m < 2 ^ 64
    → n < 2 ^ 64
    → mulhu m n ≡ (2 ^ 128 - 2 ^ 64 + a) * (2 ^ 128 - 2 ^ 64 + b) % 2 ^ 128 / 2 ^ 64
negative_factors a m b n e f hm hn =
    let fits = product_fits m n (omega arith) hn in
    let one = ap (λ x. x * n) e in
    let other = ap (λ x. (2 ^ 128 - 2 ^ 64 + a) * x) f in
    omega (arith, mulhu-eq-high m n hm hn, one, other)

mulhu_comm : (a b : ℕ) → a < 2 ^ 64 → b < 2 ^ 64 → mulhu a b ≡ mulhu b a
mulhu_comm a b ha hb = omega (arith, mulhu-eq-high a b ha hb, mulhu-eq-high b a hb ha)

-- The case of a negative second factor is that of a negative first one.
negative_second :
    (a b n : ℕ)
    → n + b ≡ 2 ^ 64
    → a < 2 ^ 64
    → b < 2 ^ 64
    → n < 2 ^ 64
    → high_with_sign true (mulhu a n) a b ≡ a * (2 ^ 128 - 2 ^ 64 + b) % 2 ^ 128 / 2 ^ 64
negative_second a b n e ha hb hn =
    rw (mulhu_comm a n ha hn, mul_comm a b, mul_comm a (2 ^ 128 - 2 ^ 64 + b))
      (negative_factor b n a e hb hn ha)

-- `mulh` of two words is the high word of the 128-bit product of the two numbers sign-extended to
-- 128 bits.
pub mulh-eq-high :
    (a b : ℕ) → a < 2 ^ 64 → b < 2 ^ 64 → mulh a b ≡ sext128 a * sext128 b % 2 ^ 128 / 2 ^ 64
unfolding mulh
mulh-eq-high a b ha hb = elim (Bool-cases (is_negative a)) [
  | inl ta ↦
      let la : 2 ^ 63 ≤ a = ground arith in
      elim (Bool-cases (is_negative b)) [
        | inl tb ↦
            let lb : 2 ^ 63 ≤ b = ground arith in
            rw (ta, tb)
              (negative_factors a (negate64 a) b (negate64 b) (omega arith) (omega arith)
                (omega arith) (omega arith))
        | inr fb ↦ rw (ta, fb) (negative_factor a (negate64 a) b (omega arith) ha (omega arith) hb)
      ]
  | inr fa ↦ elim (Bool-cases (is_negative b)) [
    | inl tb ↦
        let lb : 2 ^ 63 ≤ b = ground arith in
        rw (fa, tb) (negative_second a b (negate64 b) (omega arith) ha hb (omega arith))
    | inr fb ↦
        let fits = product_fits a b (omega arith) hb in
        rw (fa, fb) (omega (arith, mulhu-eq-high a b ha hb))
  ]
]

-- The high words of products of two words: `mulhu` gives that of their exact product, `mulhsu` that of
-- the product of the first, sign-extended to 128 bits, and the second, and `mulh` that of the product
-- of both, sign-extended to 128 bits.
pub mulhu-mulhsu-mulh :
    (a b : ℕ)
    → a < 2 ^ 64
    → b < 2 ^ 64
    → (mulhu a b ≡ a * b / 2 ^ 64)
      × (mulhsu a b ≡ sext128 a * b % 2 ^ 128 / 2 ^ 64)
      × (mulh a b ≡ sext128 a * sext128 b % 2 ^ 128 / 2 ^ 64)
mulhu-mulhsu-mulh a b ha hb =
    (mulhu-eq-high a b ha hb, mulhsu-eq-high a b ha hb, mulh-eq-high a b ha hb)
