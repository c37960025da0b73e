-- ===== src/Machine/Decode/Table.antt =====
-- The encodings of riscv/encoding.h.
use processorfuzz.Base.{ℕ, List, [], ◌∷◌}
use processorfuzz.Machine.Decode.{
  Insn, Desc, op, op_imm, branch, load, store, system, rv64_lui, rv64_auipc, rv64_jal, rv64_jalr,
  rv64_add, rv64_sub, rv64_sll, rv64_slt, rv64_sltu, rv64_xor, rv64_srl, rv64_sra, rv64_or,
  rv64_and, rv64_addw, rv64_subw, rv64_sllw, rv64_srlw, rv64_sraw, rv64_mul, rv64_mulh, rv64_mulhsu,
  rv64_mulhu, rv64_mulw, rv64_div, rv64_divu, rv64_rem, rv64_remu, rv64_divw, rv64_divuw, rv64_remw,
  rv64_remuw, rv64_addi, rv64_slti, rv64_sltiu, rv64_xori, rv64_ori, rv64_andi, rv64_slli,
  rv64_srli, rv64_srai, rv64_addiw, rv64_slliw, rv64_srliw, rv64_sraiw, rv64_beq, rv64_bne,
  rv64_blt, rv64_bge, rv64_bltu, rv64_bgeu, rv64_lb, rv64_lh, rv64_lw, rv64_ld, rv64_lbu, rv64_lhu,
  rv64_lwu, rv64_sb, rv64_sh, rv64_sw, rv64_sd, rv64_fence, rv64_fence_i, rv64_ecall, rv64_ebreak,
  rv64_mret, rv64_sret, rv64_dret, rv64_wfi, rv64_sfence_vma, rv64_csrrw, rv64_csrrs, rv64_csrrc,
  rv64_csrrwi, rv64_csrrsi, rv64_csrrci,
}

abbrev desc : ℕ → ℕ → Insn → Desc
desc match mask func = record { match = match; mask = mask; func = func }

abbrev pub instructions : List Desc
instructions =
    desc 0x37 0x7f rv64_lui
    ∷ desc 0x17 0x7f rv64_auipc
    ∷ desc 0x6f 0x7f rv64_jal
    ∷ desc 0x67 0x707f rv64_jalr
    ∷ desc 0x63 0x707f (branch rv64_beq)
    ∷ desc 0x1063 0x707f (branch rv64_bne)
    ∷ desc 0x4063 0x707f (branch rv64_blt)
    ∷ desc 0x5063 0x707f (branch rv64_bge)
    ∷ desc 0x6063 0x707f (branch rv64_bltu)
    ∷ desc 0x7063 0x707f (branch rv64_bgeu)
    ∷ desc 0x13 0x707f (op_imm rv64_addi)
    ∷ desc 0x2013 0x707f (op_imm rv64_slti)
    ∷ desc 0x3013 0x707f (op_imm rv64_sltiu)
    ∷ desc 0x4013 0x707f (op_imm rv64_xori)
    ∷ desc 0x6013 0x707f (op_imm rv64_ori)
    ∷ desc 0x7013 0x707f (op_imm rv64_andi)
    ∷ desc 0x1013 0xfc00707f (op_imm rv64_slli)
    ∷ desc 0x5013 0xfc00707f (op_imm rv64_srli)
    ∷ desc 0x40005013 0xfc00707f (op_imm rv64_srai)
    ∷ desc 0x1b 0x707f (op_imm rv64_addiw)
    ∷ desc 0x101b 0xfe00707f (op_imm rv64_slliw)
    ∷ desc 0x501b 0xfe00707f (op_imm rv64_srliw)
    ∷ desc 0x4000501b 0xfe00707f (op_imm rv64_sraiw)
    ∷ desc 0x33 0xfe00707f (op rv64_add)
    ∷ desc 0x40000033 0xfe00707f (op rv64_sub)
    ∷ desc 0x1033 0xfe00707f (op rv64_sll)
    ∷ desc 0x2033 0xfe00707f (op rv64_slt)
    ∷ desc 0x3033 0xfe00707f (op rv64_sltu)
    ∷ desc 0x4033 0xfe00707f (op rv64_xor)
    ∷ desc 0x5033 0xfe00707f (op rv64_srl)
    ∷ desc 0x40005033 0xfe00707f (op rv64_sra)
    ∷ desc 0x6033 0xfe00707f (op rv64_or)
    ∷ desc 0x7033 0xfe00707f (op rv64_and)
    ∷ desc 0x3b 0xfe00707f (op rv64_addw)
    ∷ desc 0x4000003b 0xfe00707f (op rv64_subw)
    ∷ desc 0x103b 0xfe00707f (op rv64_sllw)
    ∷ desc 0x503b 0xfe00707f (op rv64_srlw)
    ∷ desc 0x4000503b 0xfe00707f (op rv64_sraw)
    ∷ desc 0x2000033 0xfe00707f (op rv64_mul)
    ∷ desc 0x2001033 0xfe00707f (op rv64_mulh)
    ∷ desc 0x2002033 0xfe00707f (op rv64_mulhsu)
    ∷ desc 0x2003033 0xfe00707f (op rv64_mulhu)
    ∷ desc 0x200003b 0xfe00707f (op rv64_mulw)
    ∷ desc 0x2004033 0xfe00707f (op rv64_div)
    ∷ desc 0x2005033 0xfe00707f (op rv64_divu)
    ∷ desc 0x2006033 0xfe00707f (op rv64_rem)
    ∷ desc 0x2007033 0xfe00707f (op rv64_remu)
    ∷ desc 0x200403b 0xfe00707f (op rv64_divw)
    ∷ desc 0x200503b 0xfe00707f (op rv64_divuw)
    ∷ desc 0x200603b 0xfe00707f (op rv64_remw)
    ∷ desc 0x200703b 0xfe00707f (op rv64_remuw)
    ∷ desc 0x3 0x707f (load rv64_lb)
    ∷ desc 0x1003 0x707f (load rv64_lh)
    ∷ desc 0x2003 0x707f (load rv64_lw)
    ∷ desc 0x3003 0x707f (load rv64_ld)
    ∷ desc 0x4003 0x707f (load rv64_lbu)
    ∷ desc 0x5003 0x707f (load rv64_lhu)
    ∷ desc 0x6003 0x707f (load rv64_lwu)
    ∷ desc 0x23 0x707f (store rv64_sb)
    ∷ desc 0x1023 0x707f (store rv64_sh)
    ∷ desc 0x2023 0x707f (store rv64_sw)
    ∷ desc 0x3023 0x707f (store rv64_sd)
    ∷ desc 0xf 0x707f (system rv64_fence)
    ∷ desc 0x100f 0x707f (system rv64_fence_i)
    ∷ desc 0x73 0xffffffff (system rv64_ecall)
    ∷ desc 0x100073 0xffffffff (system rv64_ebreak)
    ∷ desc 0x30200073 0xffffffff (system rv64_mret)
    ∷ desc 0x10200073 0xffffffff (system rv64_sret)
    ∷ desc 0x7b200073 0xffffffff (system rv64_dret)
    ∷ desc 0x10500073 0xffffffff (system rv64_wfi)
    ∷ desc 0x12000073 0xfe007fff (system rv64_sfence_vma)
    ∷ desc 0x1073 0x707f (system rv64_csrrw)
    ∷ desc 0x2073 0x707f (system rv64_csrrs)
    ∷ desc 0x3073 0x707f (system rv64_csrrc)
    ∷ desc 0x5073 0x707f (system rv64_csrrwi)
    ∷ desc 0x6073 0x707f (system rv64_csrrsi)
    ∷ desc 0x7073 0x707f (system rv64_csrrci)
    ∷ []
