-- ===== src/Machine/Values.antt =====
-- The values of the instructions by their names, and the sizes of their accesses: riscv/insns of
-- original/Fuzzer/ISASim/riscv-isa-sim.
use processorfuzz.Base.{ℕ, Bool, true, false, not, ◌==◌, ltb}
use processorfuzz.Machine.Alu.{
  sext, signed_lt, insn_add, insn_sub, insn_sll, insn_slt, insn_sltu, insn_xor, insn_srl, insn_sra,
  insn_or, insn_and, insn_addw, insn_subw, insn_sllw, insn_srlw, insn_sraw, insn_mul, insn_mulh,
  insn_mulhsu, insn_mulhu, insn_mulw, insn_div, insn_divu, insn_rem, insn_remu, insn_divw,
  insn_divuw, insn_remw, insn_remuw, insn_addi, insn_slti, insn_sltiu, insn_xori, insn_ori,
  insn_andi, insn_slli, insn_srli, insn_srai, insn_addiw, insn_slliw, insn_srliw, insn_sraiw,
}
use processorfuzz.Machine.Decode.{
  Op, OpImm, Branch, Load, Store, rv64_add, rv64_sub, rv64_sll, rv64_slt, rv64_sltu, rv64_xor,
  rv64_srl, rv64_sra, rv64_or, rv64_and, rv64_addw, rv64_subw, rv64_sllw, rv64_srlw, rv64_sraw,
  rv64_mul, rv64_mulh, rv64_mulhsu, rv64_mulhu, rv64_mulw, rv64_div, rv64_divu, rv64_rem, rv64_remu,
  rv64_divw, rv64_divuw, rv64_remw, rv64_remuw, rv64_addi, rv64_slti, rv64_sltiu, rv64_xori,
  rv64_ori, rv64_andi, rv64_slli, rv64_srli, rv64_srai, rv64_addiw, rv64_slliw, rv64_srliw,
  rv64_sraiw, rv64_beq, rv64_bne, rv64_blt, rv64_bge, rv64_bltu, rv64_bgeu, rv64_lb, rv64_lh,
  rv64_lw, rv64_ld, rv64_lbu, rv64_lhu, rv64_lwu, rv64_sb, rv64_sh, rv64_sw, rv64_sd,
}

-- The letter M, as `supports` counts letters.
abbrev pub letter_m : ℕ
letter_m = 12

unfoldable pub op_value : Op → (a b : ℕ) → ℕ
op_value rv64_add a b = insn_add a b
op_value rv64_sub a b = insn_sub a b
op_value rv64_sll a b = insn_sll a b
op_value rv64_slt a b = insn_slt a b
op_value rv64_sltu a b = insn_sltu a b
op_value rv64_xor a b = insn_xor a b
op_value rv64_srl a b = insn_srl a b
op_value rv64_sra a b = insn_sra a b
op_value rv64_or a b = insn_or a b
op_value rv64_and a b = insn_and a b
op_value rv64_addw a b = insn_addw a b
op_value rv64_subw a b = insn_subw a b
op_value rv64_sllw a b = insn_sllw a b
op_value rv64_srlw a b = insn_srlw a b
op_value rv64_sraw a b = insn_sraw a b
op_value rv64_mul a b = insn_mul a b
op_value rv64_mulh a b = insn_mulh a b
op_value rv64_mulhsu a b = insn_mulhsu a b
op_value rv64_mulhu a b = insn_mulhu a b
op_value rv64_mulw a b = insn_mulw a b
op_value rv64_div a b = insn_div a b
op_value rv64_divu a b = insn_divu a b
op_value rv64_rem a b = insn_rem a b
op_value rv64_remu a b = insn_remu a b
op_value rv64_divw a b = insn_divw a b
op_value rv64_divuw a b = insn_divuw a b
op_value rv64_remw a b = insn_remw a b
op_value rv64_remuw a b = insn_remuw a b

abbrev pub needs_m : Op → Bool
needs_m rv64_add = false
needs_m rv64_sub = false
needs_m rv64_sll = false
needs_m rv64_slt = false
needs_m rv64_sltu = false
needs_m rv64_xor = false
needs_m rv64_srl = false
needs_m rv64_sra = false
needs_m rv64_or = false
needs_m rv64_and = false
needs_m rv64_addw = false
needs_m rv64_subw = false
needs_m rv64_sllw = false
needs_m rv64_srlw = false
needs_m rv64_sraw = false
needs_m rv64_mul = true
needs_m rv64_mulh = true
needs_m rv64_mulhsu = true
needs_m rv64_mulhu = true
needs_m rv64_mulw = true
needs_m rv64_div = true
needs_m rv64_divu = true
needs_m rv64_rem = true
needs_m rv64_remu = true
needs_m rv64_divw = true
needs_m rv64_divuw = true
needs_m rv64_remw = true
needs_m rv64_remuw = true

unfoldable pub imm_value : OpImm → (a i : ℕ) → ℕ
imm_value rv64_addi a i = insn_addi a i
imm_value rv64_slti a i = insn_slti a i
imm_value rv64_sltiu a i = insn_sltiu a i
imm_value rv64_xori a i = insn_xori a i
imm_value rv64_ori a i = insn_ori a i
imm_value rv64_andi a i = insn_andi a i
imm_value rv64_slli a i = insn_slli a i
imm_value rv64_srli a i = insn_srli a i
imm_value rv64_srai a i = insn_srai a i
imm_value rv64_addiw a i = insn_addiw a i
imm_value rv64_slliw a i = insn_slliw a i
imm_value rv64_srliw a i = insn_srliw a i
imm_value rv64_sraiw a i = insn_sraiw a i

unfoldable pub taken : Branch → (a b : ℕ) → Bool
taken rv64_beq a b = a == b
taken rv64_bne a b = not (a == b)
taken rv64_blt a b = signed_lt a b
taken rv64_bge a b = not (signed_lt a b)
taken rv64_bltu a b = ltb a b
taken rv64_bgeu a b = not (ltb a b)

-- The bytes that a load reads, and what it makes of them.
abbrev pub load_size : Load → ℕ
load_size rv64_lb = 1
load_size rv64_lh = 2
load_size rv64_lw = 4
load_size rv64_ld = 8
load_size rv64_lbu = 1
load_size rv64_lhu = 2
load_size rv64_lwu = 4

unfoldable pub load_value : Load → ℕ → ℕ
load_value rv64_lb v = sext 8 v
load_value rv64_lh v = sext 16 v
load_value rv64_lw v = sext 32 v
load_value rv64_ld v = v
load_value rv64_lbu v = v
load_value rv64_lhu v = v
load_value rv64_lwu v = v

abbrev pub store_size : Store → ℕ
store_size rv64_sb = 1
store_size rv64_sh = 2
store_size rv64_sw = 4
store_size rv64_sd = 8
