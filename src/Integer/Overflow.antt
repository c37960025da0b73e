-- ===== src/Integer/Overflow.antt =====
-- When a sum or a difference of signed numbers overflows: the tests of `sat_add` and `sat_sub` on
-- sign bits against the offset `n` of the exact result, where `h` is the weight of the sign bit.
use processorfuzz.Base.{ℕ, ◌+◌, ◌-◌, ◌*◌, ◌≤◌, ◌<◌, ◌≡◌, arith}
use processorfuzz.Base.{true, false, ltb, leb, not, if◌then◌else◌, Bool-cases, inl, inr}
use processorfuzz.Base.{◌||◌, ◌&&◌}
use processorfuzz.Integer.Sign.{differs}

module _ (h : ℕ) where
  module _ (x y n res : ℕ) (hx : x < h + h) (hy : y < h + h)
      (en : n ≡ (if leb h x then x - h else x + h) + (if leb h y then y - h else y + h))
      (er : res ≡ (if leb (h + h) (x + y) then x + y - (h + h) else x + y)) where
    pub add_flag :
        not (differs (leb h x) (leb h y) || not (differs (leb h y) (leb h res)))
        ≡ (ltb n h || leb (3 * h) n)
    add_flag = elim (Bool-cases (leb h x)) [
      | inl t ↦ elim (Bool-cases (leb h y)) [
        | inl u ↦ rw (t, u) (ground arith)
        | inr u ↦ rw (t, u) (ground arith)
      ]
      | inr t ↦ elim (Bool-cases (leb h y)) [
        | inl u ↦ rw (t, u) (ground arith)
        | inr u ↦ rw (t, u) (ground arith)
      ]
    ]

    pub add_low : ltb n h ≡ true → leb h x ≡ true
    add_low p = elim (Bool-cases (leb h x)) [
      | inl t ↦ elim (Bool-cases (leb h y)) [ inl u ↦ ground arith | inr u ↦ ground arith ]
      | inr t ↦ elim (Bool-cases (leb h y)) [ inl u ↦ ground arith | inr u ↦ ground arith ]
    ]

    pub add_high : leb (3 * h) n ≡ true → leb h x ≡ false
    add_high p = elim (Bool-cases (leb h x)) [
      | inl t ↦ elim (Bool-cases (leb h y)) [ inl u ↦ ground arith | inr u ↦ ground arith ]
      | inr t ↦ elim (Bool-cases (leb h y)) [ inl u ↦ ground arith | inr u ↦ ground arith ]
    ]

    pub add_between : h ≤ n → n < 3 * h → (if leb h res then res - h else res + h) ≡ n - h
    add_between p q = elim (Bool-cases (leb h x)) [
      | inl t ↦ elim (Bool-cases (leb h y)) [ inl u ↦ ground arith | inr u ↦ ground arith ]
      | inr t ↦ elim (Bool-cases (leb h y)) [ inl u ↦ ground arith | inr u ↦ ground arith ]
    ]

  module _ (x y n res : ℕ) (hx : x < h + h) (hy : y < h + h)
      (en : n ≡ (if leb h x then x - h else x + h) + (h + h) - (if leb h y then y - h else y + h))
      (er : res ≡ (
        if leb (h + h) (x + (h + h) - y) then x + (h + h) - y - (h + h) else x + (h + h) - y)) where
    pub sub_flag :
        (differs (leb h x) (leb h y) && differs (leb h x) (leb h res)) ≡ (ltb n h || leb (3 * h) n)
    sub_flag = elim (Bool-cases (leb h x)) [
      | inl t ↦ elim (Bool-cases (leb h y)) [
        | inl u ↦ rw (t, u) (ground arith)
        | inr u ↦ rw (t, u) (ground arith)
      ]
      | inr t ↦ elim (Bool-cases (leb h y)) [
        | inl u ↦ rw (t, u) (ground arith)
        | inr u ↦ rw (t, u) (ground arith)
      ]
    ]

    pub sub_low : ltb n h ≡ true → leb h x ≡ true
    sub_low p = elim (Bool-cases (leb h x)) [
      | inl t ↦ elim (Bool-cases (leb h y)) [ inl u ↦ ground arith | inr u ↦ ground arith ]
      | inr t ↦ elim (Bool-cases (leb h y)) [ inl u ↦ ground arith | inr u ↦ ground arith ]
    ]

    pub sub_high : leb (3 * h) n ≡ true → leb h x ≡ false
    sub_high p = elim (Bool-cases (leb h x)) [
      | inl t ↦ elim (Bool-cases (leb h y)) [ inl u ↦ ground arith | inr u ↦ ground arith ]
      | inr t ↦ elim (Bool-cases (leb h y)) [ inl u ↦ ground arith | inr u ↦ ground arith ]
    ]

    pub sub_between : h ≤ n → n < 3 * h → (if leb h res then res - h else res + h) ≡ n - h
    sub_between p q = elim (Bool-cases (leb h x)) [
      | inl t ↦ elim (Bool-cases (leb h y)) [ inl u ↦ ground arith | inr u ↦ ground arith ]
      | inr t ↦ elim (Bool-cases (leb h y)) [ inl u ↦ ground arith | inr u ↦ ground arith ]
    ]
