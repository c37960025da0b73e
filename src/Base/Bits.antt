-- ===== src/Base/Bits.antt =====
-- `&`, `|` and `^` at variables. One law, for any operation that works digit by digit, splits both
-- numbers at a digit; masks and fields are its cases.
use Prim.Native.Nat.{ℕ, zero, suc, ◌+◌, ◌-◌, ◌*◌, ◌/◌, ◌%◌, ◌^◌, ◌≤◌, ◌<◌, min, max}
use Prim.Native.Nat.{bit_and, bit_or, bit_xor, digits, bitwise, differ}
use Prim.Native.Nat.{bit_and-bitwise, bit_or-bitwise, bit_xor-bitwise}
use mathlib.Core.Path.{◌≡◌, refl, sym, ap, ◌∙◌}
use mathlib.Core.Bool.{Bool, true, ◌&&◌}
use native.Mathlib.Nat.{pow-suc, one-le-pow}
use native.Mathlib.Omega.{arith}
use processorfuzz.Base.Tests.{◌==◌, ==_iff}

-- Induction from half of a number to the number.
module _ {ℓ} (C : ℕ → Type ℓ) (start : C 0) (double : (n : ℕ) → C (suc n / 2) → C (suc n)) where
  halving_upto : (bound n : ℕ) → n ≤ bound → C n
  halving_upto bound zero h = start
  halving_upto zero (suc n) h = absurd (omega arith)
  halving_upto (suc bound) (suc n) h = double n (halving_upto bound (suc n / 2) (omega arith))

  pub halving : (n : ℕ) → C n
  halving n = halving_upto n n (omega arith)

-- A native operation counts the digits that are left; more than there are change nothing.
module _ (z : ℕ → ℕ) (f : ℕ → ℕ → ℕ) where
  one_more : (n a b : ℕ) → a ≤ n → digits z f (suc n) a b ≡ digits z f n a b
  one_more zero zero b h = refl
  one_more zero (suc a) b h = absurd (omega arith)
  one_more (suc n) zero b h = refl
  one_more (suc n) (suc a) b h =
      ap (λ d. d * 2 + f (suc a % 2) (b % 2)) (one_more n (suc a / 2) (b / 2) (omega arith))

  any_more : (k a b : ℕ) → digits z f (k + a) a b ≡ bitwise z f a b
  any_more zero a b = ap (λ n. digits z f n a b) (omega arith)
  any_more (suc k) a b =
      let count : suc k + a ≡ suc (k + a) = omega arith in
      ap (λ n. digits z f n a b) count ∙ one_more (k + a) a b (omega arith) ∙ any_more k a b

  bitwise_halves :
      (a b : ℕ)
      → bitwise z f (suc a) b ≡ bitwise z f (suc a / 2) (b / 2) * 2 + f (suc a % 2) (b % 2)
  bitwise_halves a b =
      let count : a - suc a / 2 + suc a / 2 ≡ a = omega arith in
      let more = any_more (a - suc a / 2) (suc a / 2) (b / 2) in
      ap (λ d. d * 2 + f (suc a % 2) (b % 2))
        (ap (λ n. digits z f n (suc a / 2) (b / 2)) (sym count) ∙ more)

pub bit_or_halves : (a b : ℕ) → bit_or a b ≡ bit_or (a / 2) (b / 2) * 2 + max (a % 2) (b % 2)
bit_or_halves zero b = simp bit_or-bitwise (omega arith)
bit_or_halves (suc a) b = simp bit_or-bitwise (bitwise_halves (λ y. y) max a b)

pub bit_and_halves : (a b : ℕ) → bit_and a b ≡ bit_and (a / 2) (b / 2) * 2 + min (a % 2) (b % 2)
bit_and_halves zero b = simp bit_and-bitwise (omega arith)
bit_and_halves (suc a) b = simp bit_and-bitwise (bitwise_halves (λ y. 0) min a b)

pub bit_xor_halves : (a b : ℕ) → bit_xor a b ≡ bit_xor (a / 2) (b / 2) * 2 + differ (a % 2) (b % 2)
bit_xor_halves zero b = simp bit_xor-bitwise (omega arith)
bit_xor_halves (suc a) b = simp bit_xor-bitwise (bitwise_halves (λ y. y) differ a b)

-- An operation that works digit by digit works on the parts above and below a digit.
module _ (op f : ℕ → ℕ → ℕ)
    (halves : (a b : ℕ) → op a b ≡ op (a / 2) (b / 2) * 2 + f (a % 2) (b % 2))
    (op_zero : op 0 0 ≡ 0) where
  pub op_split :
      (k p q r t : ℕ)
      → r < 2 ^ k
      → t < 2 ^ k
      → op (p * 2 ^ k + r) (q * 2 ^ k + t) ≡ op p q * 2 ^ k + op r t
  op_split zero p q r t hr ht =
      let r0 : r ≡ 0 = omega arith in
      let t0 : t ≡ 0 = omega arith in
      let left : p * 2 ^ 0 + 0 ≡ p = omega arith in
      let right : q * 2 ^ 0 + 0 ≡ q = omega arith in rw (r0, t0, left, right, op_zero) (omega arith)
  op_split (suc k) p q r t hr ht =
      let dp = ap (λ x. p * x) (pow-suc 2 k) in
      let dq = ap (λ x. q * x) (pow-suc 2 k) in
      let dr = ap (λ x. op p q * x) (pow-suc 2 k) in
      let a : (p * 2 ^ suc k + r) / 2 ≡ p * 2 ^ k + r / 2 = omega (arith, dp) in
      let b : (q * 2 ^ suc k + t) / 2 ≡ q * 2 ^ k + t / 2 = omega (arith, dq) in
      let c : (p * 2 ^ suc k + r) % 2 ≡ r % 2 = omega (arith, dp) in
      let d : (q * 2 ^ suc k + t) % 2 ≡ t % 2 = omega (arith, dq) in
      let parts = op_split k p q (r / 2) (t / 2) (omega arith) (omega arith) in
      rw (halves (p * 2 ^ suc k + r) (q * 2 ^ suc k + t), halves r t, a, b, c, d, parts)
        (omega (arith, dr))

pub bit_or-zero : (a : ℕ) → bit_or a 0 ≡ a
bit_or-zero = halving (λ a. bit_or a 0 ≡ a) refl (λ n h. omega (arith, bit_or_halves (suc n) 0, h))

pub bit_and-zero : (a : ℕ) → bit_and a 0 ≡ 0
bit_and-zero =
    halving (λ a. bit_and a 0 ≡ 0) refl (λ n h. omega (arith, bit_and_halves (suc n) 0, h))

zero-bit_or : (b : ℕ) → bit_or 0 b ≡ b
zero-bit_or b = bit_or-bitwise 0 b

bit_or_split :
    (k p q r t : ℕ)
    → r < 2 ^ k
    → t < 2 ^ k
    → bit_or (p * 2 ^ k + r) (q * 2 ^ k + t) ≡ bit_or p q * 2 ^ k + bit_or r t
bit_or_split = op_split bit_or max bit_or_halves refl

pub bit_and_split :
    (k p q r t : ℕ)
    → r < 2 ^ k
    → t < 2 ^ k
    → bit_and (p * 2 ^ k + r) (q * 2 ^ k + t) ≡ bit_and p q * 2 ^ k + bit_and r t
bit_and_split = op_split bit_and min bit_and_halves refl

no_high : (k t : ℕ) → 0 * 2 ^ k + t ≡ t
no_high k t = omega arith

-- An or with a number below `2 ^ k` changes only the low `k` bits.
pub bit_or_low :
    (k q r t : ℕ) → r < 2 ^ k → t < 2 ^ k → bit_or (q * 2 ^ k + r) t ≡ q * 2 ^ k + bit_or r t
bit_or_low k q r t hr ht = omega (
  arith,
  bit_or_split k q 0 r t hr ht,
  ap (λ x. x * 2 ^ k) (bit_or-zero q),
  ap (bit_or (q * 2 ^ k + r)) (no_high k t),
)

-- A mask below `2 ^ k` sees only the low `k` bits.
pub bit_and_low :
    (k q r mask : ℕ) → r < 2 ^ k → mask < 2 ^ k → bit_and (q * 2 ^ k + r) mask ≡ bit_and r mask
bit_and_low k q r mask hr hm = omega (
  arith,
  bit_and_split k q 0 r mask hr hm,
  ap (λ x. x * 2 ^ k) (bit_and-zero q),
  ap (bit_and (q * 2 ^ k + r)) (no_high k mask),
)

-- Fields that do not overlap add up.
pub bit_or_fields : (k q r : ℕ) → r < 2 ^ k → bit_or (q * 2 ^ k) r ≡ q * 2 ^ k + r
bit_or_fields k q r h =
    let sum : q * 2 ^ k + 0 ≡ q * 2 ^ k = omega arith in
    ap (λ x. bit_or x r) (sym sum)
    ∙ bit_or_low k q 0 r (one-le-pow k 2 (omega arith)) h
    ∙ ap (λ x. q * 2 ^ k + x) (zero-bit_or r)

pub bit_and_all : (k r : ℕ) → r < 2 ^ k → bit_and r (2 ^ k - 1) ≡ r
bit_and_all zero r h = let e : r ≡ 0 = omega arith in rw e refl
bit_and_all (suc k) r h =
    let half : (2 ^ suc k - 1) / 2 ≡ 2 ^ k - 1 = omega (arith, pow-suc 2 k) in
    let odd : (2 ^ suc k - 1) % 2 ≡ 1 = omega (arith, pow-suc 2 k, one-le-pow k 2) in
    rw (bit_and_halves r (2 ^ suc k - 1), half, odd, bit_and_all k (r / 2) (omega arith))
      (omega arith)

-- An or with `2 ^ k - 1` sets all `k` bits.
pub bit_or_all : (k r : ℕ) → r < 2 ^ k → bit_or r (2 ^ k - 1) ≡ 2 ^ k - 1
bit_or_all zero r h = let e : r ≡ 0 = omega arith in rw e refl
bit_or_all (suc k) r h =
    let half : (2 ^ suc k - 1) / 2 ≡ 2 ^ k - 1 = omega (arith, pow-suc 2 k) in
    let odd : (2 ^ suc k - 1) % 2 ≡ 1 = omega (arith, pow-suc 2 k, one-le-pow k 2) in
    rw (bit_or_halves r (2 ^ suc k - 1), half, odd, bit_or_all k (r / 2) (omega arith))
      (omega (arith, pow-suc 2 k, one-le-pow k 2))

-- `2 ^ k - 1` keeps the low `k` bits.
pub bit_and_mask : (k a : ℕ) → bit_and a (2 ^ k - 1) ≡ a % 2 ^ k
bit_and_mask k a =
    let pos : 1 ≤ 2 ^ k = one-le-pow k 2 (omega arith) in
    let parts : a / 2 ^ k * 2 ^ k + a % 2 ^ k ≡ a = omega arith in
    ap (λ x. bit_and x (2 ^ k - 1)) (sym parts)
    ∙ bit_and_low k (a / 2 ^ k) (a % 2 ^ k) (2 ^ k - 1) (omega arith) (omega arith)
    ∙ bit_and_all k (a % 2 ^ k) (omega arith)

pub bit_or_comm : (a b : ℕ) → bit_or a b ≡ bit_or b a
bit_or_comm =
    halving (λ a. (b : ℕ) → bit_or a b ≡ bit_or b a) (λ b. zero-bit_or b ∙ sym (bit_or-zero b))
      (λ n h b. omega (arith, bit_or_halves (suc n) b, bit_or_halves b (suc n), h (b / 2)))

-- A test at every number below a bound, by evaluation.
unfoldable pub all_below : ℕ → (ℕ → Bool) → Bool
all_below zero test = true
all_below (suc top) test = all_below top test && test top

pub all_below_sound :
    (bound : ℕ) (test : ℕ → Bool) (x : ℕ) → all_below bound test ≡ true → x < bound → test x ≡ true
unfolding all_below
all_below_sound zero test x checked below = absurd (omega arith)
all_below_sound (suc top) test x checked below = ground (arith, all_below_sound top test x)

-- An equation over a small range holds if the table of its values checks.
pub eq_below :
    (n : ℕ) (f g : ℕ → ℕ) (x : ℕ) → all_below n (λ y. f y == g y) ≡ true → x < n → f x ≡ g x
eq_below n f g x h lt = (==_iff (f x) (g x)).0 (all_below_sound n (λ y. f y == g y) x h lt)

-- The low three bits of `x | y` are clear exactly when those of `x` and of `y` are.
pub or_low_clear : (x y : ℕ) → bit_or x y % 8 ≡ 0 → (x % 8 ≡ 0) × (y % 8 ≡ 0)
or_low_clear x y h =
    omega (
      arith,
      bit_or_halves x y,
      bit_or_halves (x / 2) (y / 2),
      bit_or_halves (x / 2 / 2) (y / 2 / 2),
    )

pub bit_and_seven : (a : ℕ) → bit_and a 7 ≡ a % 8
bit_and_seven a = bit_and_mask 3 a

pub differ-bits : (r s : ℕ) → r < 2 → s < 2 → differ r s ≡ (r + s) % 2
differ-bits zero zero p q = refl
differ-bits zero (suc zero) p q = refl
differ-bits (suc zero) zero p q = refl
differ-bits (suc zero) (suc zero) p q = refl
differ-bits (suc (suc r)) s p q = absurd (omega arith)
differ-bits zero (suc (suc s)) p q = absurd (omega arith)
differ-bits (suc zero) (suc (suc s)) p q = absurd (omega arith)

-- The lowest bit of `x ^ y`.
pub bit_xor_low : (x y : ℕ) → bit_and (bit_xor x y) 1 ≡ (x % 2 + y % 2) % 2
bit_xor_low x y = omega (
  arith,
  bit_and_mask 1 (bit_xor x y),
  bit_xor_halves x y,
  differ-bits (x % 2) (y % 2) (omega arith) (omega arith),
)
