-- ===== src/Integer.antt =====
-- The integer arithmetic of the ISA simulator: riscv/arith.h of
-- original/Fuzzer/ISASim/riscv-isa-sim. A number is the bit pattern of a machine word; the
-- templates of the saturating operations take the width in bits, and return the flag with the
-- result.
pub mod Multiply
pub mod Sign
pub mod Fields
pub mod Overflow
pub mod Saturate
pub mod Signed
use processorfuzz.Base.{ℕ, ◌+◌, ◌-◌, ◌*◌, ◌/◌, ◌%◌, ◌^◌, bit_and, bit_or, bit_xor}
use processorfuzz.Base.{Bool, true, false, not, ◌&&◌, Option, none, some, ltb, leb, ◌==◌}
use processorfuzz.Base.{if◌then◌else◌}
use processorfuzz.Libc.Bytes.{u64}

abbrev pub u32 : ℕ → ℕ
u32 n = n % 2 ^ 32

-- A C truth value as a number.
abbrev pub bit : Bool → ℕ
bit b = if b then 1 else 0

abbrev pub is_negative : ℕ → Bool
is_negative a = leb (2 ^ 63) a

abbrev pub negate64 : ℕ → ℕ
negate64 a = u64 (2 ^ 64 - a)

-- The high word of an unsigned product, from the products of the half words.
unfoldable pub mulhu : ℕ → ℕ → ℕ
mulhu a b =
    let a0 = u32 a in
    let a1 = a / 2 ^ 32 in
    let b0 = u32 b in
    let b1 = b / 2 ^ 32 in
    let t = u64 (u64 (a1 * b0) + u64 (a0 * b0) / 2 ^ 32) in
    let y1 = u32 t in
    let y2 = u32 (t / 2 ^ 32) in
    let t = u64 (u64 (a0 * b1) + y1) in
    let t = u64 (u64 (u64 (a1 * b1) + y2) + t / 2 ^ 32) in
    let y2 = u32 t in let y3 = u32 (t / 2 ^ 32) in bit_or (u64 (y3 * 2 ^ 32)) y2

-- `negate ? ~res + (a * b == 0) : res`.
abbrev pub high_with_sign : Bool → ℕ → ℕ → ℕ → ℕ
high_with_sign negate res a b =
    if negate then u64 (2 ^ 64 - 1 - res + bit (u64 (a * b) == 0)) else res

unfoldable pub mulh : ℕ → ℕ → ℕ
mulh a b =
    let negate = if is_negative a then not (is_negative b) else is_negative b in
    let res =
      mulhu (if is_negative a then negate64 a else a) (if is_negative b then negate64 b else b) in
    high_with_sign negate res a b

unfoldable pub mulhsu : ℕ → ℕ → ℕ
mulhsu a b =
    let res = mulhu (if is_negative a then negate64 a else a) b in
    high_with_sign (is_negative a) res a b

-- `-(flag)` at the width `w`.
abbrev pub all_ones : ℕ → Bool → ℕ
all_ones w flag = if flag then 2 ^ w - 1 else 0

unfoldable pub sat_addu : (w x y : ℕ) → ℕ × Bool
sat_addu w x y =
    let res = (x + y) % 2 ^ w in let sat = ltb res x in (bit_or res (all_ones w (ltb res x)), sat)

unfoldable pub sat_subu : (w x y : ℕ) → ℕ × Bool
sat_subu w x y =
    let res = (x + 2 ^ w - y) % 2 ^ w in
    let sat = not (leb res x) in (bit_and res (all_ones w (leb res x)), sat)

-- `~v`.
abbrev pub complement : ℕ → ℕ → ℕ
complement w v = 2 ^ w - 1 - v

-- `(ux >> sh) + (((UT)0x1 << sh) - 1)`.
abbrev pub overflowed : ℕ → ℕ → ℕ
overflowed sh ux = (ux / 2 ^ sh + (2 ^ sh - 1)) % 2 ^ (sh + 1)

-- The signed operations, on bit patterns of `sh + 1` bits.
unfoldable pub sat_add : (sh x y : ℕ) → ℕ × Bool
sat_add sh ux uy =
    let w = sh + 1 in
    let res = (ux + uy) % 2 ^ w in
    if ltb (bit_or (bit_xor ux uy) (complement w (bit_xor uy res))) (2 ^ sh)
    then (overflowed sh ux, true)
    else (res, false)

unfoldable pub sat_sub : (sh x y : ℕ) → ℕ × Bool
sat_sub sh ux uy =
    let w = sh + 1 in
    let res = (ux + 2 ^ w - uy) % 2 ^ w in
    if leb (2 ^ sh) (bit_and (bit_xor ux uy) (bit_xor ux res))
    then (overflowed sh ux, true)
    else (res, false)

-- `none` is a failed assertion.
unfoldable pub extract64 : (val pos len : ℕ) → Option ℕ
extract64 val pos len =
    if ltb 0 len && leb (len + pos) 64
    then some (bit_and (val / 2 ^ pos) ((2 ^ 64 - 1) / 2 ^ (64 - len)))
    else none

unfoldable pub make_mask64 : (pos len : ℕ) → Option ℕ
make_mask64 pos len =
    if ltb 0 len && ltb pos 64 && leb len 64
    then some (u64 ((2 ^ 64 - 1) / 2 ^ (64 - len) * 2 ^ pos))
    else none
