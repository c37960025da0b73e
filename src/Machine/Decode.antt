-- ===== src/Machine/Decode.antt =====
-- The fields of an instruction and the search for its function: `insn_t` of riscv/decode.h, and the
-- encodings of riscv/encoding.h for RV64I, M and the privileged instructions. The other extensions'
-- instructions are illegal on the harts that are modelled, which do not have those extensions.
pub mod Search
pub mod Table
pub mod Lookup
pub mod Sorted
pub mod Refine
use processorfuzz.Base.{ℕ, ◌+◌, ◌-◌, ◌*◌, ◌/◌, ◌%◌, ◌^◌, Bool, ◌==◌, ltb, if◌then◌else◌}
use processorfuzz.Machine.Alu.{asr}

-- `x` and `xs`: the `len` bits from bit `lo` on, and as a signed number.
abbrev pub x : (b lo len : ℕ) → ℕ
x b lo len = b / 2 ^ lo % 2 ^ len

abbrev pub xs : (b lo len : ℕ) → ℕ
xs b lo len = asr (64 - len) (b * 2 ^ (64 - lo - len) % 2 ^ 64)

unfoldable pub insn_length : ℕ → ℕ
insn_length b =
    if ltb (b % 2 ^ 2) 0x3
    then 2
    else if ltb (b % 2 ^ 5) 0x1f
    then 4
    else if ltb (b % 2 ^ 6) 0x3f
    then 6
    else 8

unfoldable pub insn_bits : ℕ → ℕ
insn_bits b = b % 2 ^ (insn_length b * 8)

unfoldable pub i_imm : ℕ → ℕ
i_imm b = asr 20 b

unfoldable pub s_imm : ℕ → ℕ
s_imm b = (x b 7 5 + xs b 25 7 * 2 ^ 5) % 2 ^ 64

unfoldable pub sb_imm : ℕ → ℕ
sb_imm b = (x b 8 4 * 2 ^ 1 + x b 25 6 * 2 ^ 5 + x b 7 1 * 2 ^ 11 + xs b 63 1 * 2 ^ 12) % 2 ^ 64

unfoldable pub u_imm : ℕ → ℕ
u_imm b = b / 2 ^ 12 * 2 ^ 12

unfoldable pub uj_imm : ℕ → ℕ
uj_imm b = (x b 21 10 * 2 ^ 1 + x b 20 1 * 2 ^ 11 + x b 12 8 * 2 ^ 12 + xs b 63 1 * 2 ^ 20) % 2 ^ 64

abbrev pub rd : ℕ → ℕ
rd b = x b 7 5

abbrev pub rs1 : ℕ → ℕ
rs1 b = x b 15 5

abbrev pub rs2 : ℕ → ℕ
rs2 b = x b 20 5

abbrev pub csr : ℕ → ℕ
csr b = x b 20 12

-- The functions of the instructions, by the form of their operands.
pub data Op : Type 0 where
  rv64_add rv64_sub rv64_sll rv64_slt rv64_sltu rv64_xor rv64_srl rv64_sra rv64_or : Op
  rv64_and rv64_addw rv64_subw rv64_sllw rv64_srlw rv64_sraw rv64_mul rv64_mulh : Op
  rv64_mulhsu rv64_mulhu rv64_mulw rv64_div rv64_divu rv64_rem rv64_remu rv64_divw : Op
  rv64_divuw rv64_remw rv64_remuw : Op

pub data OpImm : Type 0 where
  rv64_addi rv64_slti rv64_sltiu rv64_xori rv64_ori rv64_andi rv64_slli rv64_srli : OpImm
  rv64_srai rv64_addiw rv64_slliw rv64_srliw rv64_sraiw : OpImm

pub data Branch : Type 0 where
  rv64_beq rv64_bne rv64_blt rv64_bge rv64_bltu rv64_bgeu : Branch

pub data Load : Type 0 where
  rv64_lb rv64_lh rv64_lw rv64_ld rv64_lbu rv64_lhu rv64_lwu : Load

pub data Store : Type 0 where
  rv64_sb rv64_sh rv64_sw rv64_sd : Store

pub data System : Type 0 where
  rv64_fence rv64_fence_i rv64_ecall rv64_ebreak rv64_mret rv64_sret rv64_dret : System
  rv64_wfi rv64_sfence_vma rv64_csrrw rv64_csrrs rv64_csrrc rv64_csrrwi : System
  rv64_csrrsi rv64_csrrci : System

pub data Insn : Type 0 where
  rv64_lui rv64_auipc rv64_jal rv64_jalr illegal_instruction : Insn
  op : Op → Insn
  op_imm : OpImm → Insn
  branch : Branch → Insn
  load : Load → Insn
  store : Store → Insn
  system : System → Insn

-- `insn_desc_t`.
pub record Desc : Type 0 where
  pub match : ℕ
  pub mask : ℕ
  pub func : Insn
