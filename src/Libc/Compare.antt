-- ===== src/Libc/Compare.antt =====
-- `memcmp` of string.c: the word loop only skips bytes that are equal.
use processorfuzz.Base.{ℕ, zero, suc, ◌+◌, ◌-◌, ◌*◌, ◌/◌, ◌≤◌, ◌<◌, ◌≡◌, ◌≢◌, ◌∙◌, refl, inl, inr}
use processorfuzz.Base.{some, true, ap, sym, arith, ◌==◌, bit_and, bit_or}
use processorfuzz.Base.{Bool-cases, ==_iff, lt→ltb, le→ltb_false}
use processorfuzz.Libc.{same_words, compare_bytes, memcmp}
use processorfuzz.Libc.Bytes.{Memory, IsBytes, ℤ, pos, diff, load64, byte_of}
use processorfuzz.Libc.Copied.{byte_of-load64}
use mathlib.Core.Option

module _ (m : Memory) where
  -- The first `k` bytes at `a` and at `b` are the same.
  abbrev pub Agree : ℕ → ℕ → ℕ → Type 0
  Agree a b k = (i : ℕ) → i < k → m (a + i) ≡ m (b + i)

  Agree-load64 : (a b : ℕ) → IsBytes m → load64 m a ≡ load64 m b → Agree a b 8
  Agree-load64 a b h e i lt =
      sym (byte_of-load64 m a i h lt) ∙ ap (λ w. byte_of w i) e ∙ byte_of-load64 m b i h lt

  compare_bytes-skip :
      (k a b n n' : ℕ)
      → k + n ≡ n'
      → Agree a b k
      → compare_bytes m a b n' ≡ compare_bytes m (a + k) (b + k) n
  unfolding compare_bytes
  compare_bytes-skip zero a b n n' e h = ground arith
  compare_bytes-skip (suc k) a b n zero e h = absurd (omega arith)
  compare_bytes-skip (suc k) a b n (suc n') e h =
      let first : m a ≡ m b = ground (arith, h 0) in
      let test : (m a == m b) ≡ true = (==_iff _ _).1 first in
      let rest : Agree (a + 1) (b + 1) k = λ i lt. ground (arith, h (suc i)) in
      rw test (ground (arith, compare_bytes-skip k (a + 1) (b + 1) n n' (omega arith) rest))

  -- `r` is the difference at the first of `n` bytes where the blocks differ, and zero if none does.
  pub data FirstDifference (a b n : ℕ) (r : ℤ) : Type 0 where
    same : Agree a b n → r ≡ pos 0 → FirstDifference a b n r
    at :
        (i : ℕ)
        → i < n
        → Agree a b i
        → m (a + i) ≢ m (b + i)
        → r ≡ diff (m (a + i)) (m (b + i))
        → FirstDifference a b n r

  Agree-suc : (a b k : ℕ) → m a ≡ m b → Agree (a + 1) (b + 1) k → Agree a b (suc k)
  Agree-suc a b k e h zero lt = ground arith
  Agree-suc a b k e h (suc i) lt = ground (arith, h i)

  FirstDifference-suc :
      (a b n : ℕ) {r : ℤ}
      → m a ≡ m b
      → FirstDifference (a + 1) (b + 1) n r
      → FirstDifference a b (suc n) r
  FirstDifference-suc a b n e (same h z) = same (Agree-suc a b n e h) z
  FirstDifference-suc a b n e (at i lt h ne z) =
      at (suc i) (omega arith) (Agree-suc a b i e h) (ground arith) (ground arith)

  compare_bytes-FirstDifference : (a b n : ℕ) → FirstDifference a b n (compare_bytes m a b n)
  unfolding compare_bytes
  compare_bytes-FirstDifference a b zero = same (λ i lt. absurd (omega arith)) refl
  compare_bytes-FirstDifference a b (suc n) = elim (Bool-cases (m a == m b)) [
    | inl e ↦ rw e (
        FirstDifference-suc a b n ((==_iff _ _).0 e)
          (compare_bytes-FirstDifference (a + 1) (b + 1) n))
    | inr e ↦ rw e (at 0 (omega arith) (λ i lt. absurd (omega arith)) (ground arith) (ground arith))
  ]

module _ (m : Memory) (bytes : IsBytes m) (start total : ℕ) where
  abbrev tail : ℕ × ℕ → ℤ
  tail (u1, u2) = compare_bytes m u1 u2 (total - (u1 - start))

  same_words-compare :
      (fuel u1 u2 k end : ℕ)
      → start ≤ u1
      → u1 + 8 * k ≡ end
      → end ≤ start + total
      → k < fuel
      → Option.map tail (same_words fuel m u1 u2 end)
        ≡ some (compare_bytes m u1 u2 (total - (u1 - start)))
  unfolding same_words
  same_words-compare zero u1 u2 k end p e q h = absurd (omega arith)
  same_words-compare (suc fuel) u1 u2 zero end p e q h = rw (le→ltb_false u1 end (omega arith))
  same_words-compare (suc fuel) u1 u2 (suc k) end p e q h =
      rw (lt→ltb u1 end (omega arith)) (elim (Bool-cases (load64 m u1 == load64 m u2)) [
        | inl w ↦ rw w (
            same_words-compare fuel (u1 + 8) (u2 + 8) k end (omega arith) (omega arith) q
              (omega arith)
            ∙ ap some (
                sym (
                  compare_bytes-skip m 8 u1 u2 (total - (u1 + 8 - start)) (total - (u1 - start))
                    (omega arith) (Agree-load64 m u1 u2 bytes ((==_iff _ _).0 w)))))
        | inr w ↦ rw w
      ])

-- With more fuel than words `memcmp` returns the difference of the bytes at the first place where
-- the blocks differ, and zero if all `n` bytes agree, whether or not it ran its word loop.
pub memcmp-FirstDifference :
    (fuel : ℕ) (m : Memory) (s1 s2 n : ℕ)
    → IsBytes m
    → n / 8 < fuel
    → (r : ℤ) × (memcmp fuel m s1 s2 n ≡ some r) × FirstDifference m s1 s2 n r
unfolding memcmp
memcmp-FirstDifference fuel m s1 s2 n b h = (
  compare_bytes m s1 s2 n,
  elim (Bool-cases (bit_and (bit_or s1 s2) 7 == 0)) [
    | inl e ↦ rw e (
        ground (
          arith,
          same_words-compare m b s1 n fuel s1 s2 (n / 8) (s1 + 8 * (n / 8)) (omega arith) refl
              (omega arith) h,
        ))
    | inr e ↦ rw e
  ],
  compare_bytes-FirstDifference m s1 s2 n,
)
