-- ===== src/Machine/Stores.antt =====
-- The memory that an instruction of riscv/insns changes: only a store changes it, and only bytes that
-- physical memory protection lets the hart store to.
use processorfuzz.Base.{
  leb, ◌/◌, ◌-◌, true, ℕ, ◌+◌, ◌%◌, ◌^◌, ◌≡◌, ◌⊎◌, inl, inr, refl, ap, false, arith, not, ◌&&◌, ltb,
  ◌==◌, Bool-cases, if◌then◌else◌, bit_and,
}
use processorfuzz.Libc.Bytes.{Memory, byte_of}
use processorfuzz.Mmu.{Access, fetch}
use processorfuzz.Processor.State.{State, Config, Outcome, ok, threw, supports, not64, prv_m, prv_s}
use processorfuzz.Processor.Registers.{illegal_instruction}
use processorfuzz.Processor.Views.{pc_alignment_mask, virtual_instruction}
use processorfuzz.Processor.Masks.{mstatus_tw, hstatus_vtw}
use processorfuzz.Processor.Privileged.{flag, mret, sret, dret, ecall, ebreak, sfence_vma}
use processorfuzz.Machine.Hart.{store_le, Machine, Simif, pure, with_hart, write_reg}
use processorfuzz.Machine.Access.{translate, store_phys, misaligned_fault, load_mem, store_mem}
use processorfuzz.Machine.Access.Guard.{
  SameMemory, SameMemory-if, SameMemory-bind, load_mem-SameMemory, MayStore, Guarded, then-Guarded,
  store_mem-Guarded,
}
use processorfuzz.Machine.Values.{
  op_value, needs_m, imm_value, taken, load_size, load_value, store_size, letter_m,
}
use processorfuzz.Machine.Decode.{
  Insn, Store, Op, Branch, Load, System, op, op_imm, branch, load, store, system, insn_bits, i_imm,
  s_imm, sb_imm, u_imm, uj_imm, rd, rs1, rs2, rv64_lui, rv64_auipc, rv64_jal, rv64_jalr, rv64_fence,
  rv64_fence_i, rv64_ecall, rv64_ebreak, rv64_mret, rv64_sret, rv64_dret, rv64_wfi, rv64_sfence_vma,
  rv64_csrrw, rv64_csrrs, rv64_csrrc, rv64_csrrwi, rv64_csrrsi, rv64_csrrci,
}
use processorfuzz.Machine.Execute.{
  at, set_pc, serialize, write_rd, returns, csr_access, csr_insn, resumed, exec_dret,
  serialize_before, wfi, exec_system, exec_op, jump, exec_load, exec_store, execute_insn,
}

write_reg-memory :
    {Io : Type 0} (reg value : ℕ) (m : Machine Io) → (write_reg reg value m).memory ≡ m.memory
unfolding write_reg
write_reg-memory reg value m = elim (Bool-cases (reg == 0)) [
  | inl y ↦ rw y refl
  | inr n ↦ rw n refl
]

module _ {Io : Type 0} where
  set_pc-SameMemory : (target : ℕ) (m : Machine Io) → SameMemory m (set_pc target m)
  unfolding set_pc
  set_pc-SameMemory target m =
      SameMemory-if m (bit_and target (not64 (pc_alignment_mask m.hart)) == 0) (ok target, m)
        (threw (misaligned_fault fetch target), m) refl refl

  jump-SameMemory : (bits target npc : ℕ) (m : Machine Io) → SameMemory m (jump bits target npc m)
  unfolding jump write_rd
  jump-SameMemory bits target npc m =
      SameMemory-bind m (set_pc target m) _ (set_pc-SameMemory target m)
        (λ pc m'. write_reg-memory (rd bits) npc m')

  returns-SameMemory : (f : State → Outcome State) (m : Machine Io) → SameMemory m (returns f m)
  unfolding returns
  returns-SameMemory f m = SameMemory-bind m (f m.hart, m) _ refl (λ s m'. refl)

  csr_access-SameMemory :
      (f : State → (reg operand : ℕ) → Outcome (ℕ × State)) (bits operand npc : ℕ) (m : Machine Io)
      → SameMemory m (csr_access f bits operand npc m)
  unfolding csr_access serialize
  csr_access-SameMemory f bits operand npc m =
      SameMemory-bind m (f m.hart (rs1 bits) operand, m) _ refl
        (λ r m'. write_reg-memory (rd bits) (r.0 % 2 ^ 64) (with_hart m' r.1))

  csr_insn-SameMemory :
      (f : State → (reg operand : ℕ) → Outcome (ℕ × State)) (bits operand npc : ℕ) (m : Machine Io)
      → SameMemory m (csr_insn f bits operand npc m)
  unfolding csr_insn
  csr_insn-SameMemory f bits operand npc m =
      SameMemory-if m m.serialized _ (ok serialize_before, m)
        (csr_access-SameMemory f bits operand npc (record m { serialized = false })) refl

  resumed-memory : (m : Machine Io) → (resumed m).memory ≡ m.memory
  resumed-memory m = ground arith

  exec_dret-SameMemory : (bits : ℕ) (m : Machine Io) → SameMemory m (exec_dret bits m)
  unfolding exec_dret
  exec_dret-SameMemory bits m =
      SameMemory-bind m (dret m.hart (insn_bits bits), m) _ refl
        (λ s m'. resumed-memory (with_hart m' s))

  wfi-SameMemory : (bits npc : ℕ) (m : Machine Io) → SameMemory m (wfi bits npc m)
  unfolding wfi
  wfi-SameMemory bits npc m =
      SameMemory-if m (ltb m.hart.prv (if flag m.hart.mstatus mstatus_tw then prv_m else prv_s))
        (threw (illegal_instruction (insn_bits bits)), m) _ refl
        (SameMemory-if m (m.hart.v && flag m.hart.hstatus hstatus_vtw)
          (threw (virtual_instruction (insn_bits bits)), m) _ refl refl)

  exec_system-SameMemory :
      (c : Config) (i : System) (bits npc : ℕ) (m : Machine Io)
      → SameMemory m (exec_system c i bits npc m)
  unfolding exec_system
  exec_system-SameMemory c rv64_fence bits npc m = refl
  exec_system-SameMemory c rv64_fence_i bits npc m = refl
  exec_system-SameMemory c rv64_ecall bits npc m = returns-SameMemory ecall m
  exec_system-SameMemory c rv64_ebreak bits npc m = returns-SameMemory ebreak m
  exec_system-SameMemory c rv64_mret bits npc m =
      returns-SameMemory (λ s. mret c s (insn_bits bits)) m
  exec_system-SameMemory c rv64_sret bits npc m =
      returns-SameMemory (λ s. sret c s (insn_bits bits)) m
  exec_system-SameMemory c rv64_dret bits npc m = exec_dret-SameMemory bits m
  exec_system-SameMemory c rv64_wfi bits npc m = wfi-SameMemory bits npc m
  exec_system-SameMemory c rv64_sfence_vma bits npc m =
      SameMemory-bind m (sfence_vma m.hart (insn_bits bits), m) _ refl (λ s m'. refl)
  exec_system-SameMemory c rv64_csrrw bits npc m =
      csr_insn-SameMemory _ bits (m.xpr (rs1 bits)) npc m
  exec_system-SameMemory c rv64_csrrs bits npc m =
      csr_insn-SameMemory _ bits (m.xpr (rs1 bits)) npc m
  exec_system-SameMemory c rv64_csrrc bits npc m =
      csr_insn-SameMemory _ bits (m.xpr (rs1 bits)) npc m
  exec_system-SameMemory c rv64_csrrwi bits npc m = csr_insn-SameMemory _ bits (rs1 bits) npc m
  exec_system-SameMemory c rv64_csrrsi bits npc m = csr_insn-SameMemory _ bits (rs1 bits) npc m
  exec_system-SameMemory c rv64_csrrci bits npc m = csr_insn-SameMemory _ bits (rs1 bits) npc m

  exec_op-SameMemory :
      (o : Op) (bits npc : ℕ) (m : Machine Io) → SameMemory m (exec_op o bits npc m)
  unfolding exec_op
  exec_op-SameMemory o bits npc m =
      SameMemory-if m (needs_m o && not (supports m.hart letter_m))
        (threw (illegal_instruction (insn_bits bits)), m) _ refl
        (write_reg-memory (rd bits) (op_value o (m.xpr (rs1 bits)) (m.xpr (rs2 bits))) m)

  exec_load-SameMemory :
      (c : Config) (sim : Simif Io) (l : Load) (bits npc : ℕ) (m : Machine Io)
      → SameMemory m (exec_load c sim l bits npc m)
  unfolding exec_load write_rd
  exec_load-SameMemory c sim l bits npc m =
      let addr = (m.xpr (rs1 bits) + i_imm bits) % 2 ^ 64 in
      SameMemory-bind m (load_mem c sim addr (load_size l) m) _
        (load_mem-SameMemory c sim addr (load_size l) m)
        (λ v m'. write_reg-memory (rd bits) (load_value l v) m')

  branch-SameMemory :
      (c : Config) (sim : Simif Io) (r : Branch) (bits pc : ℕ) (m : Machine Io)
      → SameMemory m (execute_insn c sim (branch r) bits pc m)
  unfolding execute_insn
  branch-SameMemory c sim r bits pc m =
      let target = (pc + sb_imm bits) % 2 ^ 64 in
      SameMemory-if m (taken r (m.xpr (rs1 bits)) (m.xpr (rs2 bits))) _ _
        (SameMemory-bind m (set_pc target m) _ (set_pc-SameMemory target m) (λ t m'. refl)) refl

  module _ (c : Config) (sim : Simif Io) (bits pc : ℕ) (m : Machine Io) where
    abbrev npc : ℕ
    npc = (pc + 4) % 2 ^ 64

    same :
        {memory : Memory}
        → memory ≡ m.memory
        → (a : ℕ) → (memory a ≡ m.memory a) ⊎ MayStore c sim m.hart a
    same e a = inl (ap (λ mem. mem a) e)

    -- In a simulator that traces loads and stores, so that none goes by the TLB: whatever the instruction
    -- and its operands, each byte of the memory is afterwards as before, or lies in an access that physical
    -- memory protection lets the hart store to at its level.
    pub execute_insn-Guarded : (f : Insn) → Guarded c sim m (execute_insn c sim f bits pc m).1
    unfolding execute_insn exec_store
    execute_insn-Guarded rv64_lui = same (write_reg-memory (rd bits) (u_imm bits) m)
    execute_insn-Guarded rv64_auipc =
        same (write_reg-memory (rd bits) ((u_imm bits + pc) % 2 ^ 64) m)
    execute_insn-Guarded rv64_jal = same (jump-SameMemory bits ((pc + uj_imm bits) % 2 ^ 64) npc m)
    execute_insn-Guarded rv64_jalr =
        same (
          jump-SameMemory bits (bit_and ((m.xpr (rs1 bits) + i_imm bits) % 2 ^ 64) (not64 1)) npc m)
    execute_insn-Guarded Insn.illegal_instruction = λ a. inl refl
    execute_insn-Guarded (op o) = same (exec_op-SameMemory o bits npc m)
    execute_insn-Guarded (op_imm o) =
        same (write_reg-memory (rd bits) (imm_value o (m.xpr (rs1 bits)) (i_imm bits)) m)
    execute_insn-Guarded (branch r) = same (branch-SameMemory c sim r bits pc m)
    execute_insn-Guarded (load l) = same (exec_load-SameMemory c sim l bits npc m)
    execute_insn-Guarded (store t) =
        let addr = (m.xpr (rs1 bits) + s_imm bits) % 2 ^ 64 in
        then-Guarded c sim m (store_mem c sim addr (store_size t) (m.xpr (rs2 bits)) m)
          (λ u. pure (at npc)) (λ u m'. refl)
          (store_mem-Guarded c sim addr (store_size t) (m.xpr (rs2 bits)) m)
    execute_insn-Guarded (system i) = same (exec_system-SameMemory c i bits npc m)

-- A store instruction whose address has a place in memory writes the bytes of the register there,
-- lowest first, and changes nothing else of the machine, whatever the alignment; then it goes on at
-- the next instruction if the address is a multiple of the size, and throws the store address
-- misaligned exception, cause 6, with the address, if it is not.
pub execute_insn-stores :
    {Io : Type 0} (c : Config) (sim : Simif Io) (t : Store) (bits pc p : ℕ) (m : Machine Io)
    → let addr = (m.xpr (rs1 bits) + s_imm bits) % 2 ^ 64 in
      translate c sim addr (store_size t) Access.store m ≡ ok p
      → sim.addr_to_mem p ≡ true
      → execute_insn c sim (store t) bits pc m ≡ (
        (if addr % store_size t == 0
            then ok (at ((pc + 4) % 2 ^ 64))
            else threw (record { cause = 6; tval = addr; tval2 = 0; tinst = 0; gva = true })),
        record m {
          memory = λ a.
              if leb p a && ltb a (p + store_size t)
              then m.xpr (rs2 bits) / 256 ^ (a - p) % 256
              else m.memory a;
        },
      )
unfolding execute_insn exec_store store_mem store_phys store_le byte_of
execute_insn-stores c sim t bits pc p m there memory =
    elim (Bool-cases ((m.xpr (rs1 bits) + s_imm bits) % 2 ^ 64 % store_size t == 0)) [
      | inl y ↦ rw (there, memory, y) refl
      | inr n ↦ rw (there, memory, n) refl
    ]
