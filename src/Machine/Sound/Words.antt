-- ===== src/Machine/Sound/Words.antt =====
-- Bounds of the values of the instructions: words of 64 bits.
use processorfuzz.Base.{
  ℕ, zero, suc, ◌-◌, ◌*◌, ◌/◌, ◌^◌, ◌≤◌, ◌<◌, ◌≡◌, refl, arith, bit_and, bit_or, bit_xor, Bool,
  true, false, ◌==◌, of_bool, if◌then◌else◌,
}
use processorfuzz.Base.Bits.{bit_or_halves, all_below, eq_below}
use processorfuzz.Integer.Sign.{bit_xor-fits}
use processorfuzz.Base.Digits.{bit_and-le}
use native.Mathlib.Nat.{
  pow-suc, div-le_self, div-lt_iff_lt-mul, one-le-pow, pow-le-pow_right, mod-le,
}
use processorfuzz.Integer.{is_negative, negate64, mulh, mulhsu, mulhu, high_with_sign}
use processorfuzz.Machine.Alu.{sext32, asr, magnitude, quotient, remainder}

abbrev pub IsWord : ℕ → Type 0
IsWord n = n < 2 ^ 64

pub IsWord-if : (b : Bool) (x y : ℕ) → IsWord x → IsWord y → IsWord (if b then x else y)
IsWord-if true x y p q = p
IsWord-if false x y p q = q

pub of_bool-IsWord : (b : Bool) → IsWord (of_bool b)
of_bool-IsWord true = omega arith
of_bool-IsWord false = omega arith

pub bit_or-fits : (k a b : ℕ) → a < 2 ^ k → b < 2 ^ k → bit_or a b < 2 ^ k
bit_or-fits zero a b p q =
    let a0 : a ≡ 0 = omega arith in let b0 : b ≡ 0 = omega arith in rw (a0, b0) (omega arith)
bit_or-fits (suc k) a b p q = omega (
  arith,
  bit_or_halves a b,
  pow-suc 2 k,
  bit_or-fits k (a / 2) (b / 2) (omega (arith, pow-suc 2 k)) (omega (arith, pow-suc 2 k)),
)

pub bit_xor-IsWord : (a b : ℕ) → IsWord a → IsWord b → IsWord (bit_xor a b)
bit_xor-IsWord a b p q = bit_xor-fits 63 a b p q

pub bit_or-IsWord : (a b : ℕ) → IsWord a → IsWord b → IsWord (bit_or a b)
bit_or-IsWord a b p q = bit_or-fits 64 a b p q

pub bit_and-IsWord : (a b : ℕ) → IsWord b → IsWord (bit_and a b)
bit_and-IsWord a b q = omega (arith, bit_and-le a b)

pub sext32-IsWord : (x : ℕ) → IsWord (sext32 x)
sext32-IsWord x = ground arith

pub negate64-IsWord : (x : ℕ) → IsWord (negate64 x)
negate64-IsWord x = omega arith

pub div-IsWord : (x y : ℕ) → IsWord x → IsWord (x / y)
div-IsWord x y p = omega (arith, div-le_self x y)

powers_table : all_below 64 (λ s. 2 ^ (64 - s) * 2 ^ s == 2 ^ 64) ≡ true
unfolding all_below
powers_table = refl

powers : (s : ℕ) → s < 64 → 2 ^ (64 - s) * 2 ^ s ≡ 2 ^ 64
powers s l = eq_below 64 (λ n. 2 ^ (64 - n) * 2 ^ n) (λ n. 2 ^ 64) s powers_table l

shifted : (s x : ℕ) → s < 64 → IsWord x → x / 2 ^ s < 2 ^ (64 - s)
shifted s x l p = (div-lt_iff_lt-mul (one-le-pow s 2 (omega arith))).1 (rw (powers s l) p)

pub asr-IsWord : (shift x : ℕ) → shift < 64 → IsWord x → IsWord (asr shift x)
asr-IsWord shift x l p =
    let q = shifted shift x l p in
    let small : 2 ^ (64 - shift) ≤ 2 ^ 64 =
      pow-le-pow_right (omega arith) {i = 64 - shift} {j = 64} (omega arith) in
    IsWord-if (is_negative x) _ _ (omega (arith, q, small)) (div-IsWord x _ p)

pub magnitude-IsWord : (x : ℕ) → IsWord x → IsWord (magnitude x)
magnitude-IsWord x p = IsWord-if (is_negative x) _ _ (negate64-IsWord x) p

pub quotient-IsWord : (x y : ℕ) → IsWord x → IsWord (quotient x y)
unfolding quotient
quotient-IsWord x y p =
    IsWord-if _ _ _ (div-IsWord (magnitude x) (magnitude y) (magnitude-IsWord x p))
      (negate64-IsWord _)

pub remainder-IsWord : (x y : ℕ) → IsWord x → IsWord (remainder x y)
unfolding remainder
remainder-IsWord x y p =
    IsWord-if (is_negative x) _ _ (negate64-IsWord _)
      (omega (arith, mod-le (magnitude x) (magnitude y), magnitude-IsWord x p))

pub mulhu-IsWord : (x y : ℕ) → IsWord (mulhu x y)
unfolding mulhu
mulhu-IsWord x y = bit_or-IsWord _ _ (omega arith) (omega arith)

high_with_sign-IsWord : (b : Bool) (res x y : ℕ) → IsWord res → IsWord (high_with_sign b res x y)
high_with_sign-IsWord b res x y p = IsWord-if b _ _ (omega arith) p

pub mulh-IsWord : (x y : ℕ) → IsWord (mulh x y)
unfolding mulh
mulh-IsWord x y = high_with_sign-IsWord _ _ x y (mulhu-IsWord _ _)

pub mulhsu-IsWord : (x y : ℕ) → IsWord (mulhsu x y)
unfolding mulhsu
mulhsu-IsWord x y = high_with_sign-IsWord (is_negative x) _ x y (mulhu-IsWord _ _)
