-- ===== src/Integer/Sign.antt =====
-- The sign bit of `&`, `|`, `^` and `~`, at every width.
use processorfuzz.Base.{ℕ, zero, suc, ◌+◌, ◌-◌, ◌*◌, ◌/◌, ◌%◌, ◌^◌, ◌<◌, ◌≡◌}
use processorfuzz.Base.{refl, sym, ap, ◌∙◌, arith, Bool, true, false, not, ◌&&◌, ◌||◌, leb}
use processorfuzz.Base.{Bool-cases, inl, inr, bit_and, bit_or, bit_xor}
use Prim.Native.Nat.{min, max, differ}
use processorfuzz.Base.Bits.{bit_or_halves, bit_and_halves, bit_xor_halves, op_split, differ-bits}
use native.Mathlib.Nat.{pow-suc}
use processorfuzz.Integer.{bit, complement}

abbrev pub differs : Bool → Bool → Bool
differs true b = not b
differs false b = b

-- A word is its sign bit and the rest.
sign_parts : (h x : ℕ) → bit (leb h x) * h + (x - bit (leb h x) * h) ≡ x
sign_parts h x = elim (Bool-cases (leb h x)) [
  | inl t ↦ rw t (ground arith)
  | inr f ↦ rw f (omega arith)
]

rest_fits : (h x : ℕ) → x < h + h → x - bit (leb h x) * h < h
rest_fits h x fits = elim (Bool-cases (leb h x)) [
  | inl t ↦ rw t (ground arith)
  | inr f ↦ rw f (ground arith)
]

sign_of_parts : (h : ℕ) (b : Bool) (r : ℕ) → r < h → leb h (bit b * h + r) ≡ b
sign_of_parts h true r fits = ground arith
sign_of_parts h false r fits = ground arith

-- The sign bit of an operation that works digit by digit is that of the sign bits.
module _ (op f : ℕ → ℕ → ℕ)
    (halves : (a b : ℕ) → op a b ≡ op (a / 2) (b / 2) * 2 + f (a % 2) (b % 2))
    (op_zero : op 0 0 ≡ 0) (digit : (r s : ℕ) → r < 2 → s < 2 → f r s < 2) (g : Bool → Bool → Bool)
    (sign : (p q : Bool) → op (bit p) (bit q) ≡ bit (g p q)) where
  op_fits : (k r t : ℕ) → r < 2 ^ k → t < 2 ^ k → op r t < 2 ^ k
  op_fits zero r t hr ht =
      let a : r ≡ 0 = omega arith in let b : t ≡ 0 = omega arith in rw (a, b, op_zero) (omega arith)
  op_fits (suc k) r t hr ht = omega (
    arith,
    pow-suc 2 k,
    halves r t,
    op_fits k (r / 2) (t / 2) (omega (arith, pow-suc 2 k)) (omega (arith, pow-suc 2 k)),
    digit (r % 2) (t % 2) (omega arith) (omega arith),
  )

  op_sign :
      (k x y : ℕ)
      → x < 2 ^ k + 2 ^ k
      → y < 2 ^ k + 2 ^ k
      → leb (2 ^ k) (op x y) ≡ g (leb (2 ^ k) x) (leb (2 ^ k) y)
  op_sign k x y hx hy =
      let p = leb (2 ^ k) x in
      let q = leb (2 ^ k) y in
      let r = x - bit p * 2 ^ k in
      let t = y - bit q * 2 ^ k in
      let hr = rest_fits (2 ^ k) x hx in
      let ht = rest_fits (2 ^ k) y hy in
      let parts =
        ap (op x) (sym (sign_parts (2 ^ k) y))
        ∙ ap (λ z. op z (bit q * 2 ^ k + t)) (sym (sign_parts (2 ^ k) x))
        ∙ op_split op f halves op_zero k (bit p) (bit q) r t hr ht
        ∙ ap (λ z. z * 2 ^ k + op r t) (sign p q) in
      ap (leb (2 ^ k)) parts ∙ sign_of_parts (2 ^ k) (g p q) (op r t) (op_fits k r t hr ht)

or_sign : (p q : Bool) → bit_or (bit p) (bit q) ≡ bit (p || q)
or_sign true true = refl
or_sign true false = refl
or_sign false true = refl
or_sign false false = refl

and_sign : (p q : Bool) → bit_and (bit p) (bit q) ≡ bit (p && q)
and_sign true true = refl
and_sign true false = refl
and_sign false true = refl
and_sign false false = refl

xor_sign : (p q : Bool) → bit_xor (bit p) (bit q) ≡ bit (differs p q)
xor_sign true true = refl
xor_sign true false = refl
xor_sign false true = refl
xor_sign false false = refl

differ_digit : (r s : ℕ) → r < 2 → s < 2 → differ r s < 2
differ_digit r s hr hs = omega (arith, differ-bits r s hr hs)

module _ (k x y : ℕ) (hx : x < 2 ^ k + 2 ^ k) (hy : y < 2 ^ k + 2 ^ k) where
  pub bit_or-sign : leb (2 ^ k) (bit_or x y) ≡ (leb (2 ^ k) x || leb (2 ^ k) y)
  bit_or-sign =
      op_sign bit_or max bit_or_halves refl (λ r s p q. omega arith) (λ p q. p || q) or_sign k x y
        hx hy

  pub bit_and-sign : leb (2 ^ k) (bit_and x y) ≡ (leb (2 ^ k) x && leb (2 ^ k) y)
  bit_and-sign =
      op_sign bit_and min bit_and_halves refl (λ r s p q. omega arith) (λ p q. p && q) and_sign k x
        y hx hy

  pub bit_xor-sign : leb (2 ^ k) (bit_xor x y) ≡ differs (leb (2 ^ k) x) (leb (2 ^ k) y)
  bit_xor-sign =
      op_sign bit_xor differ bit_xor_halves refl differ_digit differs xor_sign k x y hx hy

  pub bit_xor-fits : bit_xor x y < 2 ^ k + 2 ^ k
  bit_xor-fits = omega (
    arith,
    pow-suc 2 k,
    op_fits bit_xor differ bit_xor_halves refl differ_digit differs xor_sign (suc k) x y
        (omega (arith, pow-suc 2 k)) (omega (arith, pow-suc 2 k)),
  )

pub complement-sign :
    (k v : ℕ) → v < 2 ^ k + 2 ^ k → leb (2 ^ k) (complement (k + 1) v) ≡ not (leb (2 ^ k) v)
complement-sign k v h = elim (Bool-cases (leb (2 ^ k) v)) [
  | inl t ↦ rw t (ground (arith, pow-suc 2 k))
  | inr f ↦ rw f (ground (arith, pow-suc 2 k))
]
