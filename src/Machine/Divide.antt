-- ===== src/Machine/Divide.antt =====
-- The division instructions: riscv/insns/div.h, rem.h, divu.h and remu.h.
use processorfuzz.Base.{
  ℕ, ◌+◌, ◌-◌, ◌*◌, ◌/◌, ◌%◌, ◌^◌, ◌≤◌, ◌<◌, ◌≡◌, ◌⊎◌, inl, inr, refl, sym, ap, ◌∙◌, arith, true,
  false, ◌==◌, Bool-cases,
}
use native.Mathlib.Nat.{add-mul, mul-add, mul_comm, zero-mul, div-add-mod', mod-lt, div-le_self}
use processorfuzz.Integer.{is_negative, negate64}
use processorfuzz.Machine.Alu.{
  magnitude, quotient, remainder, overflows, insn_div, insn_rem, insn_divu, insn_remu,
}

-- The product with a complement.
complement_product : (q c b : ℕ) → c + q ≡ 2 ^ 64 → c * b + q * b ≡ 2 ^ 64 * b
complement_product q c b e = sym (add-mul c q b) ∙ ap (λ x. x * b) e

product_complement : (q d b : ℕ) → d + b ≡ 2 ^ 64 → q * d + q * b ≡ 2 ^ 64 * q
product_complement q d b e = sym (mul-add q d b) ∙ ap (λ x. q * x) e ∙ mul_comm q (2 ^ 64)

zero_or_pos : (n : ℕ) → (n ≡ 0) ⊎ (0 < n)
zero_or_pos n = ground arith

module _ (a b q r : ℕ) (whole : q * b + r ≡ a) (small : a ≤ 2 ^ 63) where
  -- A negative dividend.
  negative_dividend :
      0 < a → q ≤ a → ((2 ^ 64 - q) % 2 ^ 64 * b + (2 ^ 64 - r) % 2 ^ 64) % 2 ^ 64 ≡ 2 ^ 64 - a
  negative_dividend p l = elim (zero_or_pos q) [
    | inl z ↦
        let none : q * b ≡ 0 = ap (λ x. x * b) z ∙ zero-mul b in
        let off : (2 ^ 64 - q) % 2 ^ 64 ≡ 0 = omega arith in
        rw (off, zero-mul b) (omega (arith, none))
    | inr k ↦
        let on : (2 ^ 64 - q) % 2 ^ 64 ≡ 2 ^ 64 - q = omega arith in
        let e = complement_product q (2 ^ 64 - q) b (omega arith) in rw on (omega (arith, e))
  ]

  -- A negative divisor.
  negative_divisor :
      0 < b → b ≤ 2 ^ 63 → q ≤ a → ((2 ^ 64 - q) % 2 ^ 64 * (2 ^ 64 - b) + r) % 2 ^ 64 ≡ a
  negative_divisor p l k = elim (zero_or_pos q) [
    | inl z ↦
        let none : q * b ≡ 0 = ap (λ x. x * b) z ∙ zero-mul b in
        let off : (2 ^ 64 - q) % 2 ^ 64 ≡ 0 = omega arith in
        rw (off, zero-mul (2 ^ 64 - b)) (omega (arith, none))
    | inr n ↦
        let on : (2 ^ 64 - q) % 2 ^ 64 ≡ 2 ^ 64 - q = omega arith in
        let e = complement_product q (2 ^ 64 - q) b (omega arith) in
        let f = product_complement (2 ^ 64 - q) (2 ^ 64 - b) b (omega arith) in
        rw on (omega (arith, e, f))
  ]

  both_negative :
      0 < b → b ≤ 2 ^ 63 → 0 < a → (q * (2 ^ 64 - b) + (2 ^ 64 - r) % 2 ^ 64) % 2 ^ 64 ≡ 2 ^ 64 - a
  both_negative p l k =
      let e = product_complement q (2 ^ 64 - b) b (omega arith) in omega (arith, e)

negated : (a : ℕ) → is_negative a ≡ true → a < 2 ^ 64 → negate64 a ≡ 2 ^ 64 - a
negated a n l = ground arith

negative_small : (a : ℕ) → is_negative a ≡ true → a < 2 ^ 64 → 2 ^ 64 - a ≤ 2 ^ 63
negative_small a n l = ground arith

positive_small : (a : ℕ) → is_negative a ≡ false → a < 2 ^ 63
positive_small a n = ground arith

-- The equation of the division, for a divisor that is not zero.
module _ (a b : ℕ) (ha : a < 2 ^ 64) (hb : b < 2 ^ 64) (some_divisor : 0 < b) where
  abbrev Divides : Type 0
  Divides = (quotient a b * b + remainder a b) % 2 ^ 64 ≡ a

  pos_pos : is_negative a ≡ false → is_negative b ≡ false → Divides
  unfolding quotient remainder
  pos_pos p q = rw (p, q) (ap (λ x. x % 2 ^ 64) (div-add-mod' a b) ∙ omega arith)

  neg_pos : is_negative a ≡ true → is_negative b ≡ false → Divides
  unfolding quotient remainder
  neg_pos p q =
      let n = 2 ^ 64 - a in
      rw (p, q, negated a p ha)
        (negative_dividend n b (n / b) (n % b) (div-add-mod' n b) (negative_small a p ha)
            (omega arith) (div-le_self n b)
          ∙ omega arith)

  pos_neg : is_negative a ≡ false → is_negative b ≡ true → Divides
  unfolding quotient remainder
  pos_neg p q =
      let n = 2 ^ 64 - b in
      let back : 2 ^ 64 - n ≡ b = omega arith in
      let e =
        negative_divisor a n (a / n) (a % n) (div-add-mod' a n) (omega (arith, positive_small a p))
          (omega arith) (negative_small b q hb) (div-le_self a n) in
      rw (p, q, negated b q hb) (rw back at e)

  neg_neg : is_negative a ≡ true → is_negative b ≡ true → Divides
  unfolding quotient remainder
  neg_neg p q =
      let k = 2 ^ 64 - a in
      let n = 2 ^ 64 - b in
      let back : 2 ^ 64 - n ≡ b = omega arith in
      let e =
        both_negative k n (k / n) (k % n) (div-add-mod' k n) (negative_small a p ha) (omega arith)
          (negative_small b q hb) (omega arith) in
      rw (p, q, negated a p ha, negated b q hb) ((rw back at e) ∙ omega arith)

  signed_sum : Divides
  signed_sum = elim (Bool-cases (is_negative a)) [
    | inl p ↦ elim (Bool-cases (is_negative b)) [ inl q ↦ neg_neg p q | inr q ↦ neg_pos p q ]
    | inr p ↦ elim (Bool-cases (is_negative b)) [ inl q ↦ pos_neg p q | inr q ↦ pos_pos p q ]
  ]

-- The remainder of a division is smaller than the divisor, and has the sign of the dividend or is
-- zero.
pub record IsRemainder (a b r : ℕ) : Type 0 where
  pub smaller : magnitude r < magnitude b
  pub sign : (r ≡ 0) ⊎ (is_negative r ≡ is_negative a)

magnitude_bound : (b : ℕ) → b < 2 ^ 64 → 0 < b → (0 < magnitude b) × (magnitude b ≤ 2 ^ 63)
magnitude_bound b h p = (ground arith, ground arith)

positive-IsRemainder :
    (a b r : ℕ) → is_negative a ≡ false → r < magnitude b → magnitude b ≤ 2 ^ 63 → IsRemainder a b r
positive-IsRemainder a b r p l h =
    let n : is_negative r ≡ false = ground arith in
    record { smaller = rw n l; sign = inr (n ∙ sym p) }

negative-IsRemainder :
    (a b r : ℕ)
    → is_negative a ≡ true
    → r < magnitude b
    → magnitude b ≤ 2 ^ 63
    → IsRemainder a b (negate64 r)
negative-IsRemainder a b r p l h = elim (zero_or_pos r) [
  | inl z ↦
      let zero_again : negate64 r ≡ 0 = omega arith in
      record { smaller = rw zero_again (omega arith); sign = inl zero_again }
  | inr k ↦
      let n : is_negative (negate64 r) ≡ true = ground arith in
      let back : negate64 (negate64 r) ≡ r = omega arith in
      record { smaller = rw (n, back) l; sign = inr (n ∙ sym p) }
]

module _ (a b : ℕ) (ha : a < 2 ^ 64) (hb : b < 2 ^ 64) where
  remainder-IsRemainder : 0 < b → IsRemainder a b (remainder a b)
  unfolding remainder
  remainder-IsRemainder k =
      let (some_divisor, h) = magnitude_bound b hb k in
      let l = mod-lt (magnitude a) some_divisor in
      elim (Bool-cases (is_negative a)) [
        | inl p ↦ rw p (negative-IsRemainder a b (negate64 a % magnitude b) p (rw p at l) h)
        | inr p ↦ rw p (positive-IsRemainder a b (a % magnitude b) p (rw p at l) h)
      ]

  not_zero : 0 < b → (b == 0) ≡ false
  not_zero k = ground arith

  overflow_values : overflows a b ≡ true → (a ≡ 2 ^ 63) × (b ≡ 2 ^ 64 - 1)
  overflow_values o = (ground arith, ground arith)

  by_divisor :
      0 < b → ((insn_div a b * b + insn_rem a b) % 2 ^ 64 ≡ a) × IsRemainder a b (insn_rem a b)
  unfolding insn_div insn_rem
  by_divisor k = elim (Bool-cases (overflows a b)) [
    | inl o ↦
        let (e, f) = overflow_values o in
        rw (not_zero k, o)
          (rw (e, f) refl, record { smaller = rw f (omega arith); sign = inl refl })
    | inr o ↦ rw (not_zero k, o) (signed_sum a b ha hb k, remainder-IsRemainder k)
  ]

  -- `div` and `rem` divide: on any words, zero and the overflowing pair included, the quotient times the
  -- divisor plus the remainder is the dividend, as words. The quotient by zero has all bits set, and
  -- otherwise the remainder is smaller than the divisor and has the dividend's sign, or is zero.
  pub div-rem :
      ((insn_div a b * b + insn_rem a b) % 2 ^ 64 ≡ a)
      × (((b ≡ 0) × (insn_div a b ≡ 2 ^ 64 - 1)) ⊎ IsRemainder a b (insn_rem a b))
  unfolding insn_div insn_rem
  div-rem = elim (zero_or_pos b) [
    | inl z ↦ (rw z (omega arith), inl (z, rw z refl))
    | inr k ↦ ((by_divisor k).0, inr (by_divisor k).1)
  ]

  -- So do `divu` and `remu`, on the unsigned numbers.
  pub divu-remu :
      ((insn_divu a b * b + insn_remu a b) % 2 ^ 64 ≡ a)
      × (((b ≡ 0) × (insn_divu a b ≡ 2 ^ 64 - 1)) ⊎ (insn_remu a b < b))
  unfolding insn_divu insn_remu
  divu-remu = elim (zero_or_pos b) [
    | inl z ↦ (rw z (omega arith), inl (z, rw z refl))
    | inr k ↦ (
      rw (not_zero k) (ap (λ x. x % 2 ^ 64) (div-add-mod' a b) ∙ omega arith),
      inr (rw (not_zero k) (mod-lt a k)),
    )
  ]
