-- ===== src/Examples/Libc.antt =====
-- Template/include/v/string.c on small memories.
use processorfuzz.Base.{ℕ, zero, suc, ◌-◌, ◌%◌, ◌^◌, ◌≡◌, refl}
use processorfuzz.Base.{some, List, [], ◌∷◌, arith}
use processorfuzz.Libc.{memcpy, memset, strlen, strcmp, memcmp, atol}
use processorfuzz.Libc.Bytes.{load64, Memory, IsBytes, ℤ, pos, negsuc}
use processorfuzz.Libc.Copied.{copied}
use processorfuzz.Libc.Copy.{memcpy-eq-copied}
use processorfuzz.Libc.Fill.{filled, memset-eq-filled}
use processorfuzz.Libc.Strings.{strcmp-Compares, Compares}
use processorfuzz.Libc.Compare.{memcmp-FirstDifference, FirstDifference}
use processorfuzz.Libc.Decimal.{atol-decimal, decimal, with_sign, minus}

-- Each byte holds the low bits of its own address.
abbrev counting : Memory
counting a = a % 256

counting-IsBytes : IsBytes counting
counting-IsBytes a = omega arith

-- The bytes of a list from address 0 on, and zeros.
abbrev nth : List ℕ → Memory
nth [] a = 0
nth (x ∷ xs) zero = x
nth (x ∷ xs) (suc a) = nth xs a

-- "ab", "ac" and " -12".
abbrev texts : Memory
texts = nth (97 ∷ 98 ∷ 0 ∷ 97 ∷ 99 ∷ 0 ∷ 32 ∷ 45 ∷ 49 ∷ 50 ∷ 0 ∷ [])

memcpy-eq-copied_example :
    memcpy 17 counting 0x100 0x208 16 ≡ some (copied counting 0x100 0x208 16, 0x100)
memcpy-eq-copied_example =
    memcpy-eq-copied 17 counting 0x100 0x208 16 counting-IsBytes (omega arith) (omega arith)

memset-eq-filled_example :
    memset 17 counting 0x100 0x1ab 16 ≡ some (filled counting 0x100 0xab 16, 0x100)
memset-eq-filled_example = memset-eq-filled 17 counting 0x100 0x1ab 16 (omega arith)

memcmp-FirstDifference_example :
    (r : ℤ) × (memcmp 3 counting 0x100 0x208 16 ≡ some r)
    × FirstDifference counting 0x100 0x208 16 r
memcmp-FirstDifference_example =
    memcmp-FirstDifference 3 counting 0x100 0x208 16 counting-IsBytes (omega arith)

strcmp-Compares_example :
    (r : ℤ) × (strcmp 3 texts 0 3 ≡ some r) × Compares (97 ∷ 98 ∷ []) (97 ∷ 99 ∷ []) r
strcmp-Compares_example =
    strcmp-Compares 3 texts 0 3 (97 ∷ 98 ∷ []) (97 ∷ 99 ∷ []) (omega arith) (omega arith)
      (omega arith)

atol-decimal_example : atol 4 texts 6 ≡ some (with_sign minus (decimal 0 (49 ∷ 50 ∷ [])))
atol-decimal_example =
    atol-decimal 4 texts 6 1 minus (49 ∷ 50 ∷ []) (omega arith) (omega arith) (omega arith)

-- The runs themselves.
string_runs :
    (strlen 9 texts 0 ≡ some 2)
    × (strcmp 9 texts 0 3 ≡ some (negsuc 0))
    × (strcmp 9 texts 3 0 ≡ some (pos 1))
    × (atol 9 texts 6 ≡ some (2 ^ 64 - 12))
    × (memcmp 9 counting 8 0x108 20 ≡ some (pos 0))
    × (memcmp 9 counting 8 0x110 20 ≡ some (negsuc 7))
unfolding strlen strcmp atol memcmp load64
string_runs = (refl, refl, refl, refl, refl, refl)
