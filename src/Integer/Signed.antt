-- ===== src/Integer/Signed.antt =====
-- The signed saturating operations of arith.h, at every width. A signed number is compared by its
-- offset from the least one, which is a natural number.
use processorfuzz.Base.{ℕ, suc, ◌+◌, ◌-◌, ◌*◌, ◌/◌, ◌%◌, ◌^◌, ◌≤◌, ◌<◌, ◌≡◌, refl, ap, ◌∙◌}
use processorfuzz.Base.{
  arith, Bool, true, false, ltb, leb, not, if◌then◌else◌, Bool-cases, inl, inr,
}
use processorfuzz.Base.{◌||◌, ◌&&◌, bit_and, bit_or, bit_xor}
use native.Mathlib.Nat.{one-le-pow, pow-suc, div-eq_of_lt, div-eq_of_lt-le}
use processorfuzz.Integer.{sat_add, sat_sub, overflowed, complement}
use processorfuzz.Integer.Sign.{bit_or-sign, bit_and-sign, bit_xor-sign, bit_xor-fits}
use processorfuzz.Integer.Sign.{complement-sign, differs}
use processorfuzz.Integer.Overflow.{add_flag, add_low, add_high, add_between}
use processorfuzz.Integer.Overflow.{sub_flag, sub_low, sub_high, sub_between}
use processorfuzz.Integer.Saturate.{mod_once, mod_none}

-- How far the number that a word of `sh + 1` bits stands for lies above `-2 ^ sh`.
abbrev pub offset : ℕ → ℕ → ℕ
offset sh x = (x + 2 ^ sh) % 2 ^ (sh + 1)

-- The number that lies `n` above `-2 ^ (sh + 1)`, or the nearest one of `sh + 1` bits, by its
-- offset, and a flag that says which.
abbrev pub clamp : ℕ → ℕ → ℕ × Bool
clamp sh n =
    if ltb n (2 ^ sh)
    then (0, true)
    else if leb (3 * 2 ^ sh) n
    then (2 * 2 ^ sh - 1, true)
    else (n - 2 ^ sh, false)

double : (sh : ℕ) → 2 ^ (sh + 1) ≡ 2 ^ sh + 2 ^ sh
double sh =
    let next : sh + 1 ≡ suc sh = omega arith in ap (λ n. 2 ^ n) next ∙ omega (arith, pow-suc 2 sh)

ltb-leb : (a b : ℕ) → ltb a b ≡ not (leb b a)
ltb-leb a b = ground arith

complement_fits : (sh v : ℕ) → complement (sh + 1) v < 2 ^ sh + 2 ^ sh
complement_fits sh v = omega (arith, double sh, one-le-pow sh 2)

module _ (sh : ℕ) where
  abbrev h : ℕ
  h = 2 ^ sh

  mod_double : (n : ℕ) → n < 4 * h → n % 2 ^ (sh + 1) ≡ (if leb (h + h) n then n - (h + h) else n)
  mod_double n fits = elim (Bool-cases (leb (h + h) n)) [
    | inl t ↦ rw (double sh, t) (mod_once (h + h) n (ground arith) (omega arith))
    | inr f ↦ rw (double sh, f) (mod_none (h + h) n (ground arith))
  ]

  overflowed_lem : (x : ℕ) → x < h + h → overflowed sh x ≡ (if leb h x then h else h - 1)
  overflowed_lem x fits = elim (Bool-cases (leb h x)) [
    | inl t ↦
        let one : x / h ≡ 1 = div-eq_of_lt-le h (ground arith) (omega arith) in
        rw (t, one, double sh) (mod_none (h + h) (1 + (h - 1)) (ground arith) ∙ ground arith)
    | inr f ↦
        let none : x / h ≡ 0 = div-eq_of_lt (ground arith) in
        rw (f, none, double sh)
          (mod_none (h + h) (0 + (h - 1)) (omega (arith, one-le-pow sh 2)) ∙ omega arith)
  ]

  add_sign :
      (x y res : ℕ)
      → x < h + h
      → y < h + h
      → res < h + h
      → ltb (bit_or (bit_xor x y) (complement (sh + 1) (bit_xor y res))) h
        ≡ not (differs (leb h x) (leb h y) || not (differs (leb h y) (leb h res)))
  add_sign x y res hx hy hr =
      let other = bit_xor-fits sh y res hy hr in
      ltb-leb _ h
      ∙ ap not (
          bit_or-sign sh (bit_xor x y) (complement (sh + 1) (bit_xor y res))
            (bit_xor-fits sh x y hx hy) (complement_fits sh (bit_xor y res))
          ∙ rw
              (
                bit_xor-sign sh x y hx hy,
                complement-sign sh (bit_xor y res) other,
                bit_xor-sign sh y res hy hr,
              )
              refl)

  sub_sign :
      (x y res : ℕ)
      → x < h + h
      → y < h + h
      → res < h + h
      → leb h (bit_and (bit_xor x y) (bit_xor x res))
        ≡ (differs (leb h x) (leb h y) && differs (leb h x) (leb h res))
  sub_sign x y res hx hy hr =
      bit_and-sign sh (bit_xor x y) (bit_xor x res) (bit_xor-fits sh x y hx hy)
        (bit_xor-fits sh x res hx hr)
      ∙ rw (bit_xor-sign sh x y hx hy, bit_xor-sign sh x res hx hr) refl

  -- The number that a word stands for is below zero where its sign bit is set.
  offset_lem : (x : ℕ) → x < h + h → offset sh x ≡ (if leb h x then x - h else x + h)
  offset_lem x fits = elim (Bool-cases (leb h x)) [
    | inl t ↦
        rw (double sh, t) (mod_once (h + h) (x + h) (ground arith) (omega arith) ∙ ground arith)
    | inr f ↦ rw (double sh, f) (mod_none (h + h) (x + h) (ground arith))
  ]

  offset-overflowed :
      (x : ℕ) → x < h + h → offset sh (overflowed sh x) ≡ (if leb h x then 0 else h + h - 1)
  offset-overflowed x fits =
      let pos = one-le-pow sh 2 (omega arith) in
      ap (offset sh) (overflowed_lem x fits) ∙ elim (Bool-cases (leb h x)) [
        | inl t ↦ rw t (offset_lem h (omega arith) ∙ ground arith)
        | inr f ↦ rw f (offset_lem (h - 1) (omega arith) ∙ ground arith)
      ]

  abbrev pub as_offset : ℕ × Bool → ℕ × Bool
  as_offset p = (offset sh p.0, p.1)

  add_total :
      (x y : ℕ)
      → x < h + h
      → y < h + h
      → offset sh x + offset sh y
        ≡ (if leb h x then x - h else x + h) + (if leb h y then y - h else y + h)
  add_total x y hx hy = rw (offset_lem x hx, offset_lem y hy) refl

  sub_total :
      (x y : ℕ)
      → x < h + h
      → y < h + h
      → offset sh x + 2 ^ (sh + 1) - offset sh y
        ≡ (if leb h x then x - h else x + h) + (h + h) - (if leb h y then y - h else y + h)
  sub_total x y hx hy =
      rw (offset_lem x hx, offset_lem y hy)
        (ap (λ w. (if leb h x then x - h else x + h) + w - (if leb h y then y - h else y + h))
          (double sh))

  -- What the code returns, by the flag that it computed.
  pick : ℕ → ℕ → Bool → ℕ × Bool
  pick x res over = if over then (overflowed sh x, true) else (res, false)

  -- The result of either operation, once its flag is known to be that of `clamp`.
  clamped :
      (x res n : ℕ)
      → x < h + h
      → (ltb n h ≡ true → leb h x ≡ true)
      → (leb (3 * h) n ≡ true → leb h x ≡ false)
      → (h ≤ n → n < 3 * h → offset sh res ≡ n - h)
      → as_offset (pick x res (ltb n h || leb (3 * h) n)) ≡ clamp sh n
  unfolding pick
  clamped x res n hx low high fits = elim (Bool-cases (ltb n h)) [
    | inl t ↦ let e = offset-overflowed x hx ∙ rw (low t) refl in rw t (ap (λ r. (r, true)) e)
    | inr f ↦ elim (Bool-cases (leb (3 * h) n)) [
      | inl u ↦
          let e : offset sh (overflowed sh x) ≡ 2 * h - 1 =
            offset-overflowed x hx ∙ rw (high u) (omega arith) in
          rw (f, u) (ap (λ r. (r, true)) e)
      | inr u ↦ rw (f, u) (ap (λ r. (r, false)) (fits (ground arith) (ground arith)))
    ]
  ]

  module _ (x y : ℕ) (hx : x < 2 ^ (sh + 1)) (hy : y < 2 ^ (sh + 1)) where
    fits_x : x < h + h
    fits_x = omega (arith, double sh)

    fits_y : y < h + h
    fits_y = omega (arith, double sh)

    -- At every width `sat_add` of two words gives the word of their exact signed sum, or of the
    -- nearest number of the width if the sum is out of range, and its flag says whether it was.
    pub sat_add-eq-clamp : as_offset (sat_add sh x y) ≡ clamp sh (offset sh x + offset sh y)
    unfolding sat_add pick
    sat_add-eq-clamp =
        let n = offset sh x + offset sh y in
        let res = (x + y) % 2 ^ (sh + 1) in
        let en = add_total x y fits_x fits_y in
        let er = mod_double (x + y) (omega (arith, fits_x, fits_y)) in
        let hr : res < h + h = ground (arith, fits_x, fits_y) in
        ap (λ b. as_offset (pick x res b))
          (add_sign x y res fits_x fits_y hr ∙ add_flag h x y n res fits_x fits_y en er)
        ∙ clamped x res n fits_x (add_low h x y n res fits_x fits_y en er)
            (add_high h x y n res fits_x fits_y en er)
            (λ p q. offset_lem res hr ∙ add_between h x y n res fits_x fits_y en er p q)

    -- At every width `sat_sub` of two words gives the word of their exact signed difference, or of
    -- the nearest number of the width if the difference is out of range, and its flag says whether
    -- it was.
    pub sat_sub-eq-clamp :
        as_offset (sat_sub sh x y) ≡ clamp sh (offset sh x + 2 ^ (sh + 1) - offset sh y)
    unfolding sat_sub pick
    sat_sub-eq-clamp =
        let n = offset sh x + 2 ^ (sh + 1) - offset sh y in
        let res = (x + 2 ^ (sh + 1) - y) % 2 ^ (sh + 1) in
        let en = sub_total x y fits_x fits_y in
        let er =
          ap (λ w. (x + w - y) % 2 ^ (sh + 1)) (double sh)
          ∙ mod_double (x + (h + h) - y) (omega (arith, fits_x, fits_y)) in
        let hr : res < h + h = ground (arith, double sh, fits_x, fits_y) in
        ap (λ b. as_offset (pick x res b))
          (sub_sign x y res fits_x fits_y hr ∙ sub_flag h x y n res fits_x fits_y en er)
        ∙ clamped x res n fits_x (sub_low h x y n res fits_x fits_y en er)
            (sub_high h x y n res fits_x fits_y en er)
            (λ p q. offset_lem res hr ∙ sub_between h x y n res fits_x fits_y en er p q)

    -- At every width `sat_add` and `sat_sub` of two words give the word of their exact signed sum and
    -- difference, or of the nearest number of the width if it is out of range, and their flags say
    -- whether it was.
    pub sat_add-sat_sub :
        (as_offset (sat_add sh x y) ≡ clamp sh (offset sh x + offset sh y))
        × (as_offset (sat_sub sh x y) ≡ clamp sh (offset sh x + 2 ^ (sh + 1) - offset sh y))
    sat_add-sat_sub = (sat_add-eq-clamp, sat_sub-eq-clamp)
