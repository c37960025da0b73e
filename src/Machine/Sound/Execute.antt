-- ===== src/Machine/Sound/Execute.antt =====
-- Every instruction of riscv/insns keeps the machine sound and goes to an even address.
use processorfuzz.Base.{ℕ, ◌+◌, ◌%◌, ◌^◌, ◌≤◌, arith, not, ◌==◌, ◌&&◌, bit_and}
use native.Mathlib.Nat.{pow-le-pow_right}
use processorfuzz.Mmu.{fetch}
use processorfuzz.Processor.State.{Config, ok, not64, supports}
use processorfuzz.Processor.Views.{pc_alignment_mask}
use processorfuzz.Processor.Registers.{illegal_instruction}
use processorfuzz.Processor.Privileged.{}
use processorfuzz.Machine.Hart.{Machine, Simif, write_reg}
use processorfuzz.Machine.Access.{misaligned_fault, load_mem, store_mem}
use processorfuzz.Machine.Values.{
  op_value, needs_m, imm_value, taken, load_size, load_value, store_size, letter_m,
}
use processorfuzz.Machine.Decode.{
  insn_bits, Insn, Op, Branch, Load, Store, op, op_imm, branch, load, store, system, i_imm, s_imm,
  sb_imm, u_imm, uj_imm, rd, rs1, rs2, rv64_lui, rv64_auipc, rv64_jal, rv64_jalr, rv64_lb, rv64_lh,
  rv64_lw, rv64_ld, rv64_lbu, rv64_lhu, rv64_lwu,
}
use processorfuzz.Machine.Execute.{
  at, set_pc, write_rd, exec_op, jump, exec_load, exec_store, execute_insn,
}
use processorfuzz.Machine.Sound.{IsSound, Keeps, bind-Keeps, Any, Keeps-if, threw-Keeps}
use processorfuzz.Machine.Sound.Next.{
  IsEven, IsNext, next-IsEven, branch-IsEven, jump-IsEven, cleared-IsEven, write_reg-IsSound,
}
use processorfuzz.Machine.Sound.Words.{IsWord}
use processorfuzz.Machine.Sound.Values.{
  op_value-IsWord, imm_value-IsWord, load_value-IsWord, i_imm-IsWord, u_imm-IsWord,
}
use processorfuzz.Machine.Sound.Access.{Fits, load_mem-Keeps, store_mem-Keeps}
use processorfuzz.Machine.Sound.System.{exec_system-Keeps}

-- The value of a load of an instruction.
Fits-IsWord : (len v : ℕ) → len ≤ 8 → Fits len v → IsWord v
Fits-IsWord len v l f =
    let small : 256 ^ len ≤ 256 ^ 8 = pow-le-pow_right (omega arith) {i = len} {j = 8} l in
    omega (arith, small, f)

load_size_le : (l : Load) → load_size l ≤ 8
load_size_le rv64_lb = omega arith
load_size_le rv64_lh = omega arith
load_size_le rv64_lw = omega arith
load_size_le rv64_ld = omega arith
load_size_le rv64_lbu = omega arith
load_size_le rv64_lhu = omega arith
load_size_le rv64_lwu = omega arith

module _ {Io : Type 0} where
  -- A write of `rd`, and the next program counter.
  goes_on_with :
      (bits value npc : ℕ) (m : Machine Io)
      → IsWord value
      → IsEven npc
      → IsSound m
      → Keeps IsNext (ok (at npc), write_reg (rd bits) value m)
  goes_on_with bits value npc m w e v = record {
    kept = write_reg-IsSound (rd bits) value m w v;
    result = e;
  }

  set_pc-Keeps :
      (target : ℕ) (m : Machine Io) → IsEven target → IsSound m → Keeps IsEven (set_pc target m)
  unfolding set_pc
  set_pc-Keeps target m e v =
      Keeps-if IsEven (bit_and target (not64 (pc_alignment_mask m.hart)) == 0) _ _
        (record { kept = v; result = e }) (threw-Keeps IsEven (misaligned_fault fetch target) m v)

  jump-Keeps :
      (bits target npc : ℕ) (m : Machine Io)
      → IsEven target
      → IsWord npc
      → IsSound m
      → Keeps IsNext (jump bits target npc m)
  unfolding jump write_rd
  jump-Keeps bits target npc m e w v =
      bind-Keeps IsEven IsNext (set_pc target m) _ (set_pc-Keeps target m e v)
        (λ pc m1 p v1. goes_on_with bits npc pc m1 w p v1)

  exec_op-Keeps :
      (o : Op) (bits npc : ℕ) (m : Machine Io)
      → IsEven npc
      → IsSound m
      → Keeps IsNext (exec_op o bits npc m)
  unfolding exec_op
  exec_op-Keeps o bits npc m e v =
      Keeps-if IsNext (needs_m o && not (supports m.hart letter_m)) _ _
        (threw-Keeps IsNext (illegal_instruction (insn_bits bits)) m v)
        (goes_on_with bits (op_value o (m.xpr (rs1 bits)) (m.xpr (rs2 bits))) npc m
          (op_value-IsWord o _ _ (v.words (rs1 bits)) (v.words (rs2 bits))) e v)

  exec_load-Keeps :
      (c : Config) (sim : Simif Io) (l : Load) (bits npc : ℕ) (m : Machine Io)
      → IsEven npc
      → IsSound m
      → Keeps IsNext (exec_load c sim l bits npc m)
  unfolding exec_load write_rd
  exec_load-Keeps c sim l bits npc m e v =
      let addr = (m.xpr (rs1 bits) + i_imm bits) % 2 ^ 64 in
      bind-Keeps (Fits (load_size l)) IsNext (load_mem c sim addr (load_size l) m) _
        (load_mem-Keeps c sim addr (load_size l) m v)
        (λ value m1 f v1.
          goes_on_with bits (load_value l value) npc m1
            (load_value-IsWord l value (Fits-IsWord (load_size l) value (load_size_le l) f)) e v1)

  exec_store-Keeps :
      (c : Config) (sim : Simif Io) (t : Store) (bits npc : ℕ) (m : Machine Io)
      → IsEven npc
      → IsSound m
      → Keeps IsNext (exec_store c sim t bits npc m)
  unfolding exec_store
  exec_store-Keeps c sim t bits npc m e v =
      let addr = (m.xpr (rs1 bits) + s_imm bits) % 2 ^ 64 in
      bind-Keeps Any IsNext (store_mem c sim addr (store_size t) (m.xpr (rs2 bits)) m) _
        (store_mem-Keeps c sim addr (store_size t) (m.xpr (rs2 bits)) m v)
        (λ u m1 f v1. record { kept = v1; result = e })

  module _ (c : Config) (sim : Simif Io) (bits pc : ℕ) (m : Machine Io) (w : IsWord bits)
      (p : IsEven pc) (v : IsSound m) where
    abbrev npc : ℕ
    npc = (pc + 4) % 2 ^ 64

    branch-Keeps : (r : Branch) → Keeps IsNext (execute_insn c sim (branch r) bits pc m)
    unfolding execute_insn
    branch-Keeps r =
        Keeps-if IsNext (taken r (m.xpr (rs1 bits)) (m.xpr (rs2 bits))) _ _
          (bind-Keeps IsEven IsNext (set_pc ((pc + sb_imm bits) % 2 ^ 64) m) _
            (set_pc-Keeps ((pc + sb_imm bits) % 2 ^ 64) m (branch-IsEven pc bits p) v)
            (λ target m1 e v1. record { kept = v1; result = e }))
          (record { kept = v; result = next-IsEven pc p })

    -- Every instruction keeps the machine sound, and goes on at an even address, whatever the word that
    -- encodes it, the program counter and the devices.
    pub execute_insn-Keeps : (f : Insn) → Keeps IsNext (execute_insn c sim f bits pc m)
    unfolding execute_insn
    execute_insn-Keeps rv64_lui =
        goes_on_with bits (u_imm bits) npc m (u_imm-IsWord bits w) (next-IsEven pc p) v
    execute_insn-Keeps rv64_auipc =
        goes_on_with bits ((u_imm bits + pc) % 2 ^ 64) npc m (omega arith) (next-IsEven pc p) v
    execute_insn-Keeps rv64_jal =
        jump-Keeps bits ((pc + uj_imm bits) % 2 ^ 64) npc m (jump-IsEven pc bits p) (omega arith) v
    execute_insn-Keeps rv64_jalr =
        jump-Keeps bits _ npc m (cleared-IsEven ((m.xpr (rs1 bits) + i_imm bits) % 2 ^ 64))
          (omega arith) v
    execute_insn-Keeps Insn.illegal_instruction =
        threw-Keeps IsNext (illegal_instruction (insn_bits bits)) m v
    execute_insn-Keeps (op o) = exec_op-Keeps o bits npc m (next-IsEven pc p) v
    execute_insn-Keeps (op_imm o) =
        goes_on_with bits (imm_value o (m.xpr (rs1 bits)) (i_imm bits)) npc m
          (imm_value-IsWord o _ _ (v.words (rs1 bits)) (i_imm-IsWord bits w)) (next-IsEven pc p) v
    execute_insn-Keeps (branch r) = branch-Keeps r
    execute_insn-Keeps (load l) = exec_load-Keeps c sim l bits npc m (next-IsEven pc p) v
    execute_insn-Keeps (store t) = exec_store-Keeps c sim t bits npc m (next-IsEven pc p) v
    execute_insn-Keeps (system i) = exec_system-Keeps c bits npc m (next-IsEven pc p) v i
