-- ===== src/Machine/Sound/Values.antt =====
-- Every value that an instruction of riscv/insns writes is a word.
use processorfuzz.Base.{ℕ, ◌%◌, ◌^◌, arith, ◌==◌}
use native.Mathlib.Nat.{mod-le}
use processorfuzz.Machine.Alu.{
  sext32, insn_add, insn_sub, insn_sll, insn_slt, insn_sltu, insn_xor, insn_srl, insn_sra, insn_or,
  insn_and, insn_addw, insn_subw, insn_sllw, insn_srlw, insn_sraw, insn_mul, insn_mulh, insn_mulhsu,
  insn_mulhu, insn_mulw, insn_div, insn_divu, insn_rem, insn_remu, insn_divw, insn_divuw, insn_remw,
  insn_remuw, insn_addi, insn_slti, insn_sltiu, insn_xori, insn_ori, insn_andi, insn_slli,
  insn_srli, insn_srai, insn_addiw, insn_slliw, insn_srliw, insn_sraiw,
}
use processorfuzz.Machine.Decode.{
  Op, OpImm, Load, rv64_add, rv64_sub, rv64_sll, rv64_slt, rv64_sltu, rv64_xor, rv64_srl, rv64_sra,
  rv64_or, rv64_and, rv64_addw, rv64_subw, rv64_sllw, rv64_srlw, rv64_sraw, rv64_mul, rv64_mulh,
  rv64_mulhsu, rv64_mulhu, rv64_mulw, rv64_div, rv64_divu, rv64_rem, rv64_remu, rv64_divw,
  rv64_divuw, rv64_remw, rv64_remuw, rv64_addi, rv64_slti, rv64_sltiu, rv64_xori, rv64_ori,
  rv64_andi, rv64_slli, rv64_srli, rv64_srai, rv64_addiw, rv64_slliw, rv64_srliw, rv64_sraiw,
  rv64_lb, rv64_lh, rv64_lw, rv64_ld, rv64_lbu, rv64_lhu, rv64_lwu, i_imm, u_imm,
}
use processorfuzz.Machine.Values.{op_value, imm_value, load_value}
use processorfuzz.Machine.Sound.Words.{
  IsWord, IsWord-if, of_bool-IsWord, bit_or-IsWord, bit_xor-IsWord, bit_and-IsWord, sext32-IsWord,
  div-IsWord, asr-IsWord, quotient-IsWord, remainder-IsWord, mulhu-IsWord, mulh-IsWord,
  mulhsu-IsWord,
}

pub op_value-IsWord : (o : Op) (a b : ℕ) → IsWord a → IsWord b → IsWord (op_value o a b)
unfolding op_value insn_add insn_sub insn_sll insn_slt insn_sltu insn_xor insn_srl insn_sra insn_or
    insn_and insn_addw insn_subw insn_sllw insn_srlw insn_sraw insn_mul insn_mulh insn_mulhsu
    insn_mulhu insn_mulw insn_div insn_divu insn_rem insn_remu insn_divw insn_divuw insn_remw
    insn_remuw
op_value-IsWord rv64_add a b ha hb = omega arith
op_value-IsWord rv64_sub a b ha hb = omega arith
op_value-IsWord rv64_sll a b ha hb = omega arith
op_value-IsWord rv64_slt a b ha hb = of_bool-IsWord _
op_value-IsWord rv64_sltu a b ha hb = of_bool-IsWord _
op_value-IsWord rv64_xor a b ha hb = bit_xor-IsWord a b ha hb
op_value-IsWord rv64_srl a b ha hb = div-IsWord a (2 ^ (b % 64)) ha
op_value-IsWord rv64_sra a b ha hb = asr-IsWord (b % 64) a (omega arith) ha
op_value-IsWord rv64_or a b ha hb = bit_or-IsWord a b ha hb
op_value-IsWord rv64_and a b ha hb = bit_and-IsWord a b hb
op_value-IsWord rv64_addw a b ha hb = sext32-IsWord _
op_value-IsWord rv64_subw a b ha hb = sext32-IsWord _
op_value-IsWord rv64_sllw a b ha hb = sext32-IsWord _
op_value-IsWord rv64_srlw a b ha hb = sext32-IsWord _
op_value-IsWord rv64_sraw a b ha hb = sext32-IsWord _
op_value-IsWord rv64_mul a b ha hb = omega arith
op_value-IsWord rv64_mulh a b ha hb = mulh-IsWord a b
op_value-IsWord rv64_mulhsu a b ha hb = mulhsu-IsWord a b
op_value-IsWord rv64_mulhu a b ha hb = mulhu-IsWord a b
op_value-IsWord rv64_mulw a b ha hb = sext32-IsWord _
op_value-IsWord rv64_div a b ha hb =
    IsWord-if (b == 0) _ _ (omega arith) (IsWord-if _ _ _ ha (quotient-IsWord a b ha))
op_value-IsWord rv64_divu a b ha hb = IsWord-if (b == 0) _ _ (omega arith) (div-IsWord a b ha)
op_value-IsWord rv64_rem a b ha hb =
    IsWord-if (b == 0) _ _ ha (IsWord-if _ 0 _ (omega arith) (remainder-IsWord a b ha))
op_value-IsWord rv64_remu a b ha hb = IsWord-if (b == 0) _ _ ha (omega (arith, mod-le a b))
op_value-IsWord rv64_divw a b ha hb = IsWord-if (sext32 b == 0) _ _ (omega arith) (sext32-IsWord _)
op_value-IsWord rv64_divuw a b ha hb =
    IsWord-if (b % 2 ^ 32 == 0) _ _ (omega arith) (sext32-IsWord _)
op_value-IsWord rv64_remw a b ha hb =
    IsWord-if (sext32 b == 0) _ _ (sext32-IsWord a) (sext32-IsWord _)
op_value-IsWord rv64_remuw a b ha hb =
    IsWord-if (b % 2 ^ 32 == 0) _ _ (sext32-IsWord a) (sext32-IsWord _)

pub imm_value-IsWord : (o : OpImm) (a i : ℕ) → IsWord a → IsWord i → IsWord (imm_value o a i)
unfolding imm_value insn_addi insn_slti insn_sltiu insn_xori insn_ori insn_andi insn_slli insn_srli
    insn_srai insn_addiw insn_slliw insn_srliw insn_sraiw
imm_value-IsWord rv64_addi a i ha hi = omega arith
imm_value-IsWord rv64_slti a i ha hi = of_bool-IsWord _
imm_value-IsWord rv64_sltiu a i ha hi = of_bool-IsWord _
imm_value-IsWord rv64_xori a i ha hi = bit_xor-IsWord i a hi ha
imm_value-IsWord rv64_ori a i ha hi = bit_or-IsWord i a hi ha
imm_value-IsWord rv64_andi a i ha hi = bit_and-IsWord i a ha
imm_value-IsWord rv64_slli a i ha hi = omega arith
imm_value-IsWord rv64_srli a i ha hi = div-IsWord a (2 ^ (i % 64)) ha
imm_value-IsWord rv64_srai a i ha hi = asr-IsWord (i % 64) a (omega arith) ha
imm_value-IsWord rv64_addiw a i ha hi = sext32-IsWord _
imm_value-IsWord rv64_slliw a i ha hi = sext32-IsWord _
imm_value-IsWord rv64_srliw a i ha hi = sext32-IsWord _
imm_value-IsWord rv64_sraiw a i ha hi = sext32-IsWord _

pub load_value-IsWord : (l : Load) (v : ℕ) → IsWord v → IsWord (load_value l v)
unfolding load_value
load_value-IsWord rv64_lb v h = ground arith
load_value-IsWord rv64_lh v h = ground arith
load_value-IsWord rv64_lw v h = ground arith
load_value-IsWord rv64_ld v h = h
load_value-IsWord rv64_lbu v h = h
load_value-IsWord rv64_lhu v h = h
load_value-IsWord rv64_lwu v h = h

pub i_imm-IsWord : (b : ℕ) → IsWord b → IsWord (i_imm b)
unfolding i_imm
i_imm-IsWord b h = asr-IsWord 20 b (omega arith) h

pub u_imm-IsWord : (b : ℕ) → IsWord b → IsWord (u_imm b)
unfolding u_imm
u_imm-IsWord b h = omega arith
