-- ===== src/Libc/Strings.antt =====
-- `strlen` and `strcmp` of string.c on C strings.
use processorfuzz.Base.{ℕ, zero, suc, ◌+◌, ◌<◌, ◌≡◌, ◌≢◌, ◌↔◌, ◌⊎◌, refl, inl, inr}
use processorfuzz.Base.{some, false, List, [], ◌∷◌, length, arith, ◌==◌}
use processorfuzz.Base.{if◌then◌else◌, Bool-cases, leb, leb→le, leb_false→lt, ==_iff}
use processorfuzz.Libc.{scan, strlen, strcmp}
use processorfuzz.Libc.Bytes.{Memory, ℤ, pos, negsuc, diff}
use processorfuzz.Libc.Text.{IsText}

scan-IsText :
    (fuel : ℕ) (m : Memory) (s : ℕ) (cs : List ℕ)
    → IsText m s cs
    → length cs < fuel
    → scan fuel m s ≡ some (s + length cs)
unfolding scan
scan-IsText zero m s cs t h = absurd (omega arith)
scan-IsText (suc fuel) m s [] t h = ground arith
scan-IsText (suc fuel) m s (c ∷ cs) t h =
    ground (arith, scan-IsText fuel m (s + 1) cs t.2 (omega arith))

-- With more fuel than characters `strlen` returns the number of characters before the zero byte.
strlen-IsText :
    (fuel : ℕ) (m : Memory) (s : ℕ) (cs : List ℕ)
    → IsText m s cs
    → length cs < fuel
    → strlen fuel m s ≡ some (length cs)
unfolding strlen
strlen-IsText fuel m s cs t h = rw (scan-IsText fuel m s cs t h) (ground arith)

-- The order of strings by their first difference, where a proper prefix comes first.
abbrev pub TextLt : List ℕ → List ℕ → Type 0
TextLt xs [] = ⊥
TextLt [] (y ∷ ys) = Unit
TextLt (x ∷ xs) (y ∷ ys) = (x < y) ⊎ ((x ≡ y) × TextLt xs ys)

abbrev pub IsNegative : ℤ → Type 0
IsNegative (pos n) = ⊥
IsNegative (negsuc n) = Unit

-- What the sign of a comparison's result says.
pub record Compares (xs ys : List ℕ) (r : ℤ) : Type 0 where
  pub zero_iff : (r ≡ pos 0) ↔ (xs ≡ ys)
  pub negative_iff : IsNegative r ↔ TextLt xs ys

-- The difference at the first place where the strings differ.
text_diff : List ℕ → List ℕ → ℤ
text_diff [] [] = pos 0
text_diff [] (y ∷ ys) = diff 0 y
text_diff (x ∷ xs) [] = diff x 0
text_diff (x ∷ xs) (y ∷ ys) = if x == y then text_diff xs ys else diff x y

strcmp-eq-text_diff :
    (fuel : ℕ) (m : Memory) (s1 s2 : ℕ) (xs ys : List ℕ)
    → IsText m s1 xs
    → IsText m s2 ys
    → length xs < fuel
    → strcmp fuel m s1 s2 ≡ some (text_diff xs ys)
unfolding strcmp text_diff
strcmp-eq-text_diff zero m s1 s2 xs ys t u h = absurd (omega arith)
strcmp-eq-text_diff (suc fuel) m s1 s2 [] [] t u h = ground arith
strcmp-eq-text_diff (suc fuel) m s1 s2 [] (y ∷ ys) t u h = ground arith
strcmp-eq-text_diff (suc fuel) m s1 s2 (x ∷ xs) [] t u h = ground arith
strcmp-eq-text_diff (suc fuel) m s1 s2 (x ∷ xs) (y ∷ ys) t u h =
    ground (arith, strcmp-eq-text_diff fuel m (s1 + 1) (s2 + 1) xs ys t.2 u.2 (omega arith))

diff-zero : (x y : ℕ) → diff x y ≡ pos 0 → x ≡ y
diff-zero x y h = ground arith

diff_neg : (x y : ℕ) → IsNegative (diff x y) ↔ (x < y)
diff_neg x y = elim (Bool-cases (leb y x)) [
  | inl e ↦ rw e ((λ n. absurd n), λ lt. absurd (omega (arith, leb→le y x e)))
  | inr e ↦ rw e ((λ n. leb_false→lt y x e), λ lt. tt)
]

ne_of_test : (x y : ℕ) → (x == y) ≡ false → x ≢ y
ne_of_test x y e = ground arith

module _ (m : Memory) where
  text_diff-zero :
      (s1 s2 : ℕ) (xs ys : List ℕ)
      → IsText m s1 xs
      → IsText m s2 ys
      → text_diff xs ys ≡ pos 0
      → xs ≡ ys
  unfolding text_diff
  text_diff-zero s1 s2 [] [] t u h = refl
  text_diff-zero s1 s2 [] (y ∷ ys) t u h = ground (arith, diff-zero 0 y h)
  text_diff-zero s1 s2 (x ∷ xs) [] t u h = ground (arith, diff-zero x 0 h)
  text_diff-zero s1 s2 (x ∷ xs) (y ∷ ys) t u h =
      ground (arith, text_diff-zero (s1 + 1) (s2 + 1) xs ys t.2 u.2, diff-zero x y)

  text_diff_refl : (xs : List ℕ) → text_diff xs xs ≡ pos 0
  unfolding text_diff
  text_diff_refl [] = refl
  text_diff_refl (x ∷ xs) = ground (arith, text_diff_refl xs)

  text_diff_neg :
      (s1 s2 : ℕ) (xs ys : List ℕ)
      → IsText m s1 xs
      → IsText m s2 ys
      → IsNegative (text_diff xs ys) ↔ TextLt xs ys
  unfolding text_diff
  text_diff_neg s1 s2 [] [] t u = (λ n. n, λ n. n)
  text_diff_neg s1 s2 [] (y ∷ ys) t u = (λ n. tt, λ n. (diff_neg 0 y).1 (omega (arith, u.1)))
  text_diff_neg s1 s2 (x ∷ xs) [] t u =
      (λ n. absurd (omega (arith, (diff_neg x 0).0 n)), λ n. absurd n)
  text_diff_neg s1 s2 (x ∷ xs) (y ∷ ys) t u = elim (Bool-cases (x == y)) [
    | inl e ↦
        let same : x ≡ y = (==_iff x y).0 e in
        let rest = text_diff_neg (s1 + 1) (s2 + 1) xs ys t.2 u.2 in
        rw e (
          (λ n. inr (same, rest.0 n)),
          λ o. elim o [ inl lt ↦ absurd (omega arith) | inr p ↦ rest.1 p.1 ],
        )
    | inr e ↦
        let apart : x ≢ y = ne_of_test x y e in
        rw e (
          (λ n. inl ((diff_neg x y).0 n)),
          λ o. (diff_neg x y).1 (elim o [ inl lt ↦ lt | inr p ↦ absurd (apart p.0) ]),
        )
  ]

-- `strcmp` returns an `int` that is zero exactly when the strings are equal, and negative exactly
-- when the first comes before the second; fuel above the length of the first is enough.
pub strcmp-Compares :
    (fuel : ℕ) (m : Memory) (s1 s2 : ℕ) (xs ys : List ℕ)
    → IsText m s1 xs
    → IsText m s2 ys
    → length xs < fuel
    → (r : ℤ) × (strcmp fuel m s1 s2 ≡ some r) × Compares xs ys r
strcmp-Compares fuel m s1 s2 xs ys t u h = (
  text_diff xs ys,
  strcmp-eq-text_diff fuel m s1 s2 xs ys t u h,
  record {
    zero_iff = (text_diff-zero m s1 s2 xs ys t u, λ e. rw e (text_diff_refl m ys));
    negative_iff = text_diff_neg m s1 s2 xs ys t u;
  },
)
