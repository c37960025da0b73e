-- ===== src/Libc/Decimal.antt =====
-- `atol` of string.c reads a decimal number, modulo 2 ^ 64.
use processorfuzz.Base.{ℕ, zero, suc, ◌+◌, ◌-◌, ◌*◌, ◌^◌, ◌≤◌, ◌<◌, ◌≡◌, ◌≢◌, ◌∙◌, refl}
use processorfuzz.Base.{some, false, List, [], ◌∷◌, ◌++◌, length, replicate}
use processorfuzz.Base.{ap, arith, ◌==◌}
use processorfuzz.Libc.{skip_spaces, add_digit, read_digits, read_signed, atol}
use processorfuzz.Libc.Bytes.{Memory, u64}
use processorfuzz.Libc.Text.{IsText}

abbrev pub AreDigits : List ℕ → Type 0
AreDigits [] = Unit
AreDigits (c ∷ cs) = (b'0' ≤ c) × (c ≤ b'9') × AreDigits cs

-- The number that decimal digits after `acc` stand for, with no bound.
unfoldable pub decimal : ℕ → List ℕ → ℕ
decimal acc [] = acc
decimal acc (c ∷ cs) = decimal (acc * 10 + (c - b'0')) cs

decimal_mod : (x y : ℕ) (cs : List ℕ) → u64 x ≡ u64 y → u64 (decimal x cs) ≡ u64 (decimal y cs)
unfolding decimal
decimal_mod x y [] e = e
decimal_mod x y (c ∷ cs) e =
    decimal_mod (x * 10 + (c - b'0')) (y * 10 + (c - b'0')) cs (omega arith)

add_digit_lem :
    (res c : ℕ) → b'0' ≤ c → c ≤ b'9' → u64 (add_digit res c) ≡ u64 (res * 10 + (c - b'0'))
unfolding add_digit
add_digit_lem res c p q = omega arith

add_digit-lt : (res c : ℕ) → add_digit res c < 2 ^ 64
unfolding add_digit
add_digit-lt res c = omega arith

read_digits-decimal :
    (fuel : ℕ) (m : Memory) (s acc : ℕ) (cs : List ℕ)
    → IsText m s cs
    → AreDigits cs
    → acc < 2 ^ 64
    → length cs < fuel
    → read_digits fuel m s acc ≡ some (u64 (decimal acc cs))
unfolding read_digits decimal
read_digits-decimal zero m s acc cs t d b h = absurd (omega arith)
read_digits-decimal (suc fuel) m s acc [] t d b h = ground arith
read_digits-decimal (suc fuel) m s acc (c ∷ cs) t d b h =
    let e : (m s == 0) ≡ false = ground arith in
    rw (e, t.0)
      (read_digits-decimal fuel m (s + 1) (add_digit acc c) cs t.2 d.2 (add_digit-lt acc c)
          (omega arith)
        ∙ ap some (
            decimal_mod (add_digit acc c) (acc * 10 + (c - b'0')) cs (add_digit_lem acc c d.0 d.1)))

-- The characters of an optional sign.
pub data Sign : Type 0 where
  unsigned plus minus : Sign

abbrev pub sign_text : Sign → List ℕ
sign_text unsigned = []
sign_text plus = b'+' ∷ []
sign_text minus = b'-' ∷ []

-- The 64-bit pattern of a number with a sign.
abbrev pub with_sign : Sign → ℕ → ℕ
with_sign minus n = u64 (2 ^ 64 - u64 n)
with_sign plus n = u64 n
with_sign unsigned n = u64 n

read_signed-decimal :
    (fuel : ℕ) (m : Memory) (s : ℕ) (g : Sign) (cs : List ℕ)
    → IsText m s (sign_text g ++ cs)
    → AreDigits cs
    → length cs < fuel
    → read_signed fuel m s ≡ some (with_sign g (decimal 0 cs))
unfolding read_signed
read_signed-decimal fuel m s plus cs t d h =
    ground (arith, read_digits-decimal fuel m (s + 1) 0 cs t.2 d (omega arith) h)
read_signed-decimal fuel m s minus cs t d h =
    ground (arith, read_digits-decimal fuel m (s + 1) 0 cs t.2 d (omega arith) h)
read_signed-decimal fuel m s unsigned [] t d h =
    ground (arith, read_digits-decimal fuel m s 0 [] t d (omega arith) h)
read_signed-decimal fuel m s unsigned (c ∷ cs) t d h =
    ground (arith, read_digits-decimal fuel m s 0 (c ∷ cs) t d (omega arith) h)

skip_spaces-IsText :
    (fuel : ℕ) (m : Memory) (s k s' : ℕ) (cs : List ℕ)
    → IsText m s (replicate k b' ' ++ cs)
    → s + k ≡ s'
    → m s' ≢ b' '
    → k < fuel
    → skip_spaces fuel m s ≡ some s'
unfolding skip_spaces
skip_spaces-IsText zero m s k s' cs t e ne h = absurd (omega arith)
skip_spaces-IsText (suc fuel) m s zero s' cs t e ne h = ground arith
skip_spaces-IsText (suc fuel) m s (suc k) s' cs t e ne h =
    ground (arith, skip_spaces-IsText fuel m (s + 1) k s' cs t.2)

IsText-after :
    (m : Memory) (s k s' : ℕ) (cs : List ℕ)
    → IsText m s (replicate k b' ' ++ cs)
    → s + k ≡ s'
    → IsText m s' cs
IsText-after m s zero s' cs t e = let q : s' ≡ s = omega arith in rw q t
IsText-after m s (suc k) s' cs t e = IsText-after m (s + 1) k s' cs t.2 (omega arith)

not_space :
    (m : Memory) (s : ℕ) (g : Sign) (cs : List ℕ)
    → IsText m s (sign_text g ++ cs)
    → AreDigits cs
    → m s ≢ b' '
not_space m s plus cs t d = omega (arith, t.0)
not_space m s minus cs t d = omega (arith, t.0)
not_space m s unsigned [] t d = omega (arith, t)
not_space m s unsigned (c ∷ cs) t d = omega (arith, t.0, d.0)

-- On any number of spaces, an optional sign and decimal digits `atol` returns the number, negated
-- after a minus sign, as a 64-bit pattern; fuel above the length of the text is enough.
pub atol-decimal :
    (fuel : ℕ) (m : Memory) (s k : ℕ) (g : Sign) (cs : List ℕ)
    → IsText m s (replicate k b' ' ++ (sign_text g ++ cs))
    → AreDigits cs
    → k + length cs < fuel
    → atol fuel m s ≡ some (with_sign g (decimal 0 cs))
unfolding atol
atol-decimal fuel m s k g cs t d h =
    let u : IsText m (s + k) (sign_text g ++ cs) =
      IsText-after m s k (s + k) (sign_text g ++ cs) t refl in
    rw
      (skip_spaces-IsText fuel m s k (s + k) (sign_text g ++ cs) t refl
        (not_space m (s + k) g cs u d) (omega arith))
      (read_signed-decimal fuel m (s + k) g cs u d (omega arith))
