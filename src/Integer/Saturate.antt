-- ===== src/Integer/Saturate.antt =====
-- The saturating operations of arith.h, at every width.
use processorfuzz.Base.{ℕ, ◌+◌, ◌-◌, ◌%◌, ◌^◌, ◌≤◌, ◌<◌, ◌≡◌, ap, ◌∙◌}
use processorfuzz.Base.{arith, Bool, true, false, ltb, leb, if◌then◌else◌, Bool-cases, inl, inr}
use processorfuzz.Base.Bits.{bit_and_all, bit_and-zero, bit_or-zero, bit_or_all}
use native.Mathlib.Nat.{mod-eq-sub-mod, mod-eq_of_lt}
use processorfuzz.Integer.{sat_addu, sat_subu}

pub mod_once : (h n : ℕ) → h ≤ n → n < h + h → n % h ≡ n - h
mod_once h n p q = mod-eq-sub-mod p ∙ mod-eq_of_lt (omega arith)

pub mod_none : (h n : ℕ) → n < h → n % h ≡ n
mod_none h n p = mod-eq_of_lt p

-- The sum, or the largest word if the sum is larger, and a flag that says which.
abbrev pub clamp_top : ℕ → ℕ → ℕ × Bool
clamp_top w n = if leb (2 ^ w) n then (2 ^ w - 1, true) else (n, false)

-- At every width `w` `sat_addu` of two words gives their sum, or the largest word if the sum is at
-- least `2 ^ w`, and its flag says whether it is.
pub sat_addu-eq-clamp_top :
    (w x y : ℕ) → x < 2 ^ w → y < 2 ^ w → sat_addu w x y ≡ clamp_top w (x + y)
unfolding sat_addu
sat_addu-eq-clamp_top w x y hx hy = elim (Bool-cases (leb (2 ^ w) (x + y))) [
  | inl t ↦
      let le : 2 ^ w ≤ x + y = ground arith in
      let e = mod_once (2 ^ w) (x + y) le (omega arith) in
      let carry : ltb (x + y - 2 ^ w) x ≡ true = ground arith in
      rw (t, e, carry) (ap (λ r. (r, true)) (bit_or_all w (x + y - 2 ^ w) (omega arith)))
  | inr f ↦
      let e = mod_none (2 ^ w) (x + y) (ground arith) in
      let carry : ltb (x + y) x ≡ false = ground arith in
      rw (f, e, carry) (ap (λ r. (r, false)) (bit_or-zero (x + y)))
]

-- The difference, or zero if it is negative, and a flag that says which.
abbrev pub clamp_bottom : ℕ → ℕ → ℕ × Bool
clamp_bottom x y = if leb y x then (x - y, false) else (0, true)

-- At every width `sat_subu` of two words gives their difference, or zero if the second is larger, and
-- its flag says whether it is.
pub sat_subu-eq-clamp_bottom :
    (w x y : ℕ) → x < 2 ^ w → y < 2 ^ w → sat_subu w x y ≡ clamp_bottom x y
unfolding sat_subu
sat_subu-eq-clamp_bottom w x y hx hy = elim (Bool-cases (leb y x)) [
  | inl t ↦
      let le : y ≤ x = ground arith in
      let e : (x + 2 ^ w - y) % 2 ^ w ≡ x - y =
        mod_once (2 ^ w) (x + 2 ^ w - y) (omega arith) (omega arith) ∙ omega arith in
      let fine : leb (x - y) x ≡ true = ground arith in
      rw (t, e, fine) (ap (λ r. (r, false)) (bit_and_all w (x - y) (omega arith)))
  | inr f ↦
      let lt : x < y = ground arith in
      let e = mod_none (2 ^ w) (x + 2 ^ w - y) (omega arith) in
      let borrow : leb (x + 2 ^ w - y) x ≡ false = ground arith in
      rw (f, e, borrow) (ap (λ r. (r, true)) (bit_and-zero (x + 2 ^ w - y)))
]

-- At every width `w` `sat_addu` of two words gives their sum, or the largest word if the sum is at
-- least `2 ^ w`, and `sat_subu` their difference, or zero if the second is larger; the flags say
-- whether the result is the bound.
sat_addu-sat_subu :
    (w x y : ℕ)
    → x < 2 ^ w
    → y < 2 ^ w
    → (sat_addu w x y ≡ clamp_top w (x + y)) × (sat_subu w x y ≡ clamp_bottom x y)
sat_addu-sat_subu w x y hx hy =
    (sat_addu-eq-clamp_top w x y hx hy, sat_subu-eq-clamp_bottom w x y hx hy)
