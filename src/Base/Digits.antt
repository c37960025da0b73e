-- ===== src/Base/Digits.antt =====
-- Single bits of `&`, `|`, `^` and `~`, and the fields of a register.
use processorfuzz.Base.Bits.{
  halving, bit_and_split, bit_and_mask, bit_and-zero, bit_or_halves, bit_and_halves,
}
use Prim.Native.Nat.{ℕ, zero, suc, ◌+◌, ◌-◌, ◌*◌, ◌/◌, ◌%◌, ◌^◌, ◌<◌, ◌≤◌, min, max}
use Prim.Native.Nat.{bit_and, bit_or, bit_and-bitwise}
use mathlib.Core.Path.{◌≡◌, refl, sym, ap, ◌∙◌}
use native.Mathlib.Nat.{one-le-pow, mod-lt, div-add-mod', pow-suc, div-div-eq-div-mul}
use native.Mathlib.Omega.{arith}

-- Bit `k` of a number.
abbrev pub test : ℕ → ℕ → ℕ
test k x = x / 2 ^ k % 2

pub test-suc : (k x : ℕ) → test (suc k) x ≡ test k (x / 2)
test-suc k x =
    ap (λ n. x / n % 2) (pow-suc 2 k ∙ omega arith)
    ∙ ap (λ n. n % 2) (sym (div-div-eq-div-mul x 2 (2 ^ k)))

pub test-zero : (x : ℕ) → test 0 x ≡ x % 2
test-zero x = ap (λ n. n % 2) (omega arith)

module _ (op f : ℕ → ℕ → ℕ)
    (halves : (a b : ℕ) → op a b ≡ op (a / 2) (b / 2) * 2 + f (a % 2) (b % 2))
    (digit : (r s : ℕ) → r < 2 → s < 2 → f r s < 2) where
  lowest : (a b : ℕ) → op a b % 2 ≡ f (a % 2) (b % 2)
  lowest a b = omega (arith, halves a b, digit (a % 2) (b % 2) (omega arith) (omega arith))

  rest : (a b : ℕ) → op a b / 2 ≡ op (a / 2) (b / 2)
  rest a b = omega (arith, halves a b, digit (a % 2) (b % 2) (omega arith) (omega arith))

  test-op : (k a b : ℕ) → test k (op a b) ≡ f (test k a) (test k b)
  test-op zero a b = test-zero (op a b) ∙ lowest a b ∙ rw (test-zero a, test-zero b) refl
  test-op (suc k) a b =
      test-suc k (op a b)
      ∙ ap (test k) (rest a b)
      ∙ test-op k (a / 2) (b / 2)
      ∙ rw (test-suc k a, test-suc k b) refl

pub test-bit_and : (k a b : ℕ) → test k (bit_and a b) ≡ min (test k a) (test k b)
test-bit_and = test-op bit_and min bit_and_halves (λ r s p q. omega arith)

pub test-bit_or : (k a b : ℕ) → test k (bit_or a b) ≡ max (test k a) (test k b)
test-bit_or = test-op bit_or max bit_or_halves (λ r s p q. omega arith)

-- `old`, with the bits of `mask` taken from `new`; `others` is the complement of `mask`.
abbrev pub merge : (others mask old new : ℕ) → ℕ
merge others mask old new = bit_or (bit_and old others) (bit_and new mask)

module _ (k others mask old new : ℕ) where
  merged :
      test k (merge others mask old new)
      ≡ max (min (test k old) (test k others)) (min (test k new) (test k mask))
  merged =
      test-bit_or k (bit_and old others) (bit_and new mask)
      ∙ rw (test-bit_and k old others, test-bit_and k new mask) refl

  pub test-merge_zero : test k mask ≡ 0 → test k old ≡ 0 → test k (merge others mask old new) ≡ 0
  test-merge_zero m o = merged ∙ rw (m, o) (omega arith)

  pub test-merge_in :
      test k others ≡ 0 → test k mask ≡ 1 → test k (merge others mask old new) ≡ test k new
  test-merge_in o m = merged ∙ rw (o, m) (omega arith)

  pub test-merge_out :
      test k others ≡ 1 → test k mask ≡ 0 → test k (merge others mask old new) ≡ test k old
  test-merge_out o m = merged ∙ rw (o, m) (omega arith)

zero-bit_and : (b : ℕ) → bit_and 0 b ≡ 0
zero-bit_and b = simp bit_and-bitwise refl

pub bit_and-le : (a b : ℕ) → bit_and a b ≤ b
bit_and-le =
    halving (λ a. (b : ℕ) → bit_and a b ≤ b) (λ b. rw (zero-bit_and b) (omega arith))
      (λ n h b. omega (arith, bit_and_halves (suc n) b, h (b / 2)))

pub bit_and-le_left : (a b : ℕ) → bit_and a b ≤ a
bit_and-le_left =
    halving (λ a. (b : ℕ) → bit_and a b ≤ a) (λ b. rw (zero-bit_and b) (omega arith))
      (λ n h b. omega (arith, bit_and_halves (suc n) b, h (b / 2)))

and_and :
    (a b c : ℕ)
    → bit_and (bit_and a b) c
      ≡ bit_and (bit_and (a / 2) (b / 2)) (c / 2) * 2 + min (min (a % 2) (b % 2)) (c % 2)
and_and a b c =
    bit_and_halves (bit_and a b) c
    ∙ rw
        (
          rest bit_and min bit_and_halves (λ r s p q. omega arith) a b,
          lowest bit_and min bit_and_halves (λ r s p q. omega arith) a b,
        )
        refl

-- Two masks in either order.
pub bit_and-swap : (a b c : ℕ) → bit_and (bit_and a b) c ≡ bit_and (bit_and a c) b
bit_and-swap =
    halving (λ a. (b c : ℕ) → bit_and (bit_and a b) c ≡ bit_and (bit_and a c) b)
      (λ b c. rw (zero-bit_and b, zero-bit_and c) (sym (zero-bit_and b)))
      (λ n h b c.
        and_and (suc n) b c ∙ rw (h (b / 2) (c / 2)) (omega arith) ∙ sym (and_and (suc n) c b))

-- The `width` bits from bit `k` on.
pub bit_and_field :
    (width k m : ℕ) → bit_and m ((2 ^ width - 1) * 2 ^ k) ≡ m / 2 ^ k % 2 ^ width * 2 ^ k
bit_and_field width k m =
    let p = one-le-pow k 2 (omega arith) in
    ap (λ x. bit_and x ((2 ^ width - 1) * 2 ^ k)) (sym (div-add-mod' m (2 ^ k)))
    ∙ ap (bit_and (m / 2 ^ k * 2 ^ k + m % 2 ^ k)) (omega arith)
    ∙ bit_and_split k (m / 2 ^ k) (2 ^ width - 1) (m % 2 ^ k) 0 (mod-lt m (omega (arith, p)))
        (omega (arith, p))
    ∙ rw (bit_and_mask width (m / 2 ^ k), bit_and-zero (m % 2 ^ k)) (omega arith)

pub bit_and_single : (k m : ℕ) → bit_and m (1 * 2 ^ k) ≡ m / 2 ^ k % 2 * 2 ^ k
bit_and_single = bit_and_field 1

pub bit_and_pair : (k m : ℕ) → bit_and m (3 * 2 ^ k) ≡ m / 2 ^ k % 4 * 2 ^ k
bit_and_pair = bit_and_field 2
