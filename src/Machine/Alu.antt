-- ===== src/Machine/Alu.antt =====
-- What the integer instructions write: riscv/insns of
-- original/Fuzzer/ISASim/riscv-isa-sim for RV64I and M, on the values of their operands. A register
-- is a bit pattern below 2 ^ 64; `sreg_t` reads it as a signed number.
use processorfuzz.Base.{
  ℕ, ◌+◌, ◌-◌, ◌*◌, ◌/◌, ◌%◌, ◌^◌, bit_and, bit_or, bit_xor, Bool, not, ◌==◌, ltb, of_bool,
  if◌then◌else◌, ◌&&◌, ◌||◌,
}
use processorfuzz.Integer.{is_negative, negate64, mulh, mulhsu, mulhu}

-- `sext32` of riscv/decode.h.
abbrev pub sext32 : ℕ → ℕ
sext32 x = if ltb (x % 2 ^ 32) (2 ^ 31) then x % 2 ^ 32 else x % 2 ^ 32 + (2 ^ 64 - 2 ^ 32)

-- The conversion of a signed number of `width` bits to `sreg_t`.
abbrev pub sext : (width x : ℕ) → ℕ
sext width x =
    if ltb (x % 2 ^ width) (2 ^ (width - 1))
    then x % 2 ^ width
    else x % 2 ^ width + (2 ^ 64 - 2 ^ width)

-- A right shift of a signed number, by less than 64.
abbrev pub asr : (shift x : ℕ) → ℕ
asr shift x = if is_negative x then x / 2 ^ shift + (2 ^ 64 - 2 ^ (64 - shift)) else x / 2 ^ shift

-- `<` of signed numbers, on their patterns.
abbrev pub signed_lt : ℕ → ℕ → Bool
signed_lt a b =
    if is_negative a then not (is_negative b) || ltb a b else not (is_negative b) && ltb a b

abbrev pub magnitude : ℕ → ℕ
magnitude a = if is_negative a then negate64 a else a

-- `/` and `%` of signed numbers, which round to zero: the remainder has the sign of the dividend.
unfoldable pub quotient : ℕ → ℕ → ℕ
quotient a b =
    let q = magnitude a / magnitude b in
    if of_bool (is_negative a) == of_bool (is_negative b) then q else negate64 q

unfoldable pub remainder : ℕ → ℕ → ℕ
remainder a b = let r = magnitude a % magnitude b in if is_negative a then negate64 r else r

abbrev pub overflows : ℕ → ℕ → Bool
overflows a b = a == 2 ^ 63 && b == 2 ^ 64 - 1

unfoldable pub insn_add : ℕ → ℕ → ℕ
insn_add a b = (a + b) % 2 ^ 64

unfoldable pub insn_sub : ℕ → ℕ → ℕ
insn_sub a b = (a + 2 ^ 64 - b) % 2 ^ 64

unfoldable pub insn_sll : ℕ → ℕ → ℕ
insn_sll a b = a * 2 ^ (b % 64) % 2 ^ 64

unfoldable pub insn_slt : ℕ → ℕ → ℕ
insn_slt a b = of_bool (signed_lt a b)

unfoldable pub insn_sltu : ℕ → ℕ → ℕ
insn_sltu a b = of_bool (ltb a b)

unfoldable pub insn_xor : ℕ → ℕ → ℕ
insn_xor a b = bit_xor a b

unfoldable pub insn_srl : ℕ → ℕ → ℕ
insn_srl a b = a / 2 ^ (b % 64)

unfoldable pub insn_sra : ℕ → ℕ → ℕ
insn_sra a b = asr (b % 64) a

unfoldable pub insn_or : ℕ → ℕ → ℕ
insn_or a b = bit_or a b

unfoldable pub insn_and : ℕ → ℕ → ℕ
insn_and a b = bit_and a b

unfoldable pub insn_addw : ℕ → ℕ → ℕ
insn_addw a b = sext32 (a + b)

unfoldable pub insn_subw : ℕ → ℕ → ℕ
insn_subw a b = sext32 (a + 2 ^ 64 - b)

unfoldable pub insn_sllw : ℕ → ℕ → ℕ
insn_sllw a b = sext32 (a * 2 ^ (b % 32))

unfoldable pub insn_srlw : ℕ → ℕ → ℕ
insn_srlw a b = sext32 (a % 2 ^ 32 / 2 ^ (b % 32))

unfoldable pub insn_sraw : ℕ → ℕ → ℕ
insn_sraw a b = sext32 (asr (b % 32) (sext32 a))

unfoldable pub insn_mul : ℕ → ℕ → ℕ
insn_mul a b = a * b % 2 ^ 64

unfoldable pub insn_mulh : ℕ → ℕ → ℕ
insn_mulh a b = mulh a b

unfoldable pub insn_mulhsu : ℕ → ℕ → ℕ
insn_mulhsu a b = mulhsu a b

unfoldable pub insn_mulhu : ℕ → ℕ → ℕ
insn_mulhu a b = mulhu a b

unfoldable pub insn_mulw : ℕ → ℕ → ℕ
insn_mulw a b = sext32 (a * b)

unfoldable pub insn_div : ℕ → ℕ → ℕ
insn_div a b = if b == 0 then 2 ^ 64 - 1 else if overflows a b then a else quotient a b

unfoldable pub insn_divu : ℕ → ℕ → ℕ
insn_divu a b = if b == 0 then 2 ^ 64 - 1 else a / b

unfoldable pub insn_rem : ℕ → ℕ → ℕ
insn_rem a b = if b == 0 then a else if overflows a b then 0 else remainder a b

unfoldable pub insn_remu : ℕ → ℕ → ℕ
insn_remu a b = if b == 0 then a else a % b

unfoldable pub insn_divw : ℕ → ℕ → ℕ
insn_divw a b = if sext32 b == 0 then 2 ^ 64 - 1 else sext32 (quotient (sext32 a) (sext32 b))

unfoldable pub insn_divuw : ℕ → ℕ → ℕ
insn_divuw a b = if b % 2 ^ 32 == 0 then 2 ^ 64 - 1 else sext32 (a % 2 ^ 32 / (b % 2 ^ 32))

unfoldable pub insn_remw : ℕ → ℕ → ℕ
insn_remw a b = if sext32 b == 0 then sext32 a else sext32 (remainder (sext32 a) (sext32 b))

unfoldable pub insn_remuw : ℕ → ℕ → ℕ
insn_remuw a b = if b % 2 ^ 32 == 0 then sext32 a else sext32 (a % 2 ^ 32 % (b % 2 ^ 32))

unfoldable pub insn_addi : (a i : ℕ) → ℕ
insn_addi a i = (a + i) % 2 ^ 64

unfoldable pub insn_slti : (a i : ℕ) → ℕ
insn_slti a i = of_bool (signed_lt a i)

unfoldable pub insn_sltiu : (a i : ℕ) → ℕ
insn_sltiu a i = of_bool (ltb a i)

unfoldable pub insn_xori : (a i : ℕ) → ℕ
insn_xori a i = bit_xor i a

unfoldable pub insn_ori : (a i : ℕ) → ℕ
insn_ori a i = bit_or i a

unfoldable pub insn_andi : (a i : ℕ) → ℕ
insn_andi a i = bit_and i a

unfoldable pub insn_slli : (a i : ℕ) → ℕ
insn_slli a i = a * 2 ^ (i % 64) % 2 ^ 64

unfoldable pub insn_srli : (a i : ℕ) → ℕ
insn_srli a i = a / 2 ^ (i % 64)

unfoldable pub insn_srai : (a i : ℕ) → ℕ
insn_srai a i = asr (i % 64) a

unfoldable pub insn_addiw : (a i : ℕ) → ℕ
insn_addiw a i = sext32 (i + a)

unfoldable pub insn_slliw : (a i : ℕ) → ℕ
insn_slliw a i = sext32 (a * 2 ^ (i % 64))

unfoldable pub insn_srliw : (a i : ℕ) → ℕ
insn_srliw a i = sext32 (a % 2 ^ 32 / 2 ^ (i % 64))

unfoldable pub insn_sraiw : (a i : ℕ) → ℕ
insn_sraiw a i = sext32 (asr (i % 64) (sext32 a))
