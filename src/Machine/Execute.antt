-- ===== src/Machine/Execute.antt =====
-- What an instruction does to the machine: riscv/insns for RV64I, M and the privileged instructions,
-- inside riscv/insn_template.cc. `WRITE_RD`, `set_pc`, `require` and the others are macros of
-- riscv/decode.h.
use processorfuzz.Base.{false, ℕ, ◌+◌, ◌%◌, ◌^◌, not, ◌&&◌, ◌==◌, ltb, if◌then◌else◌, bit_and}
use processorfuzz.Mmu.{fetch}
use processorfuzz.Processor.State.{State, Config, Outcome, ok, threw, supports, not64, prv_m, prv_s}
use processorfuzz.Processor.Registers.{illegal_instruction}
use processorfuzz.Processor.Views.{pc_alignment_mask, virtual_instruction}
use processorfuzz.Processor.Masks.{mstatus_tw, hstatus_vtw}
use processorfuzz.Processor.Privileged.{
  flag, csrrw, csrrs, csrrc, mret, sret, dret, ecall, ebreak, sfence_vma,
}
use processorfuzz.Machine.Values.{
  letter_m, op_value, needs_m, imm_value, taken, load_size, load_value, store_size,
}
use processorfuzz.Machine.Decode.{
  Insn, Op, Load, Store, System, op, op_imm, branch, load, store, system, insn_bits, i_imm, s_imm,
  sb_imm, u_imm, uj_imm, rd, rs1, rs2, csr, rv64_fence, rv64_fence_i, rv64_ecall, rv64_ebreak,
  rv64_mret, rv64_sret, rv64_dret, rv64_wfi, rv64_sfence_vma, rv64_csrrw, rv64_csrrs, rv64_csrrc,
  rv64_csrrwi, rv64_csrrsi, rv64_csrrci, rv64_lui, rv64_auipc, rv64_jal, rv64_jalr,
}
use processorfuzz.Machine.Hart.{
  Machine, step_stepping, Simif, Action, pure, bind, ◌>>=◌, with_hart, write_reg,
}
use processorfuzz.Machine.Access.{misaligned_fault, load_mem, store_mem}

-- How an instruction ends: with the next program counter, with the sentinel PC_SERIALIZE_BEFORE, which
-- asks for another run of it, with PC_SERIALIZE_AFTER and the next program counter in the state, or by
-- throwing `wait_for_interrupt_t`.
pub data Next : Type 0 where
  at : ℕ → Next
  serialize_before : Next
  serialize_after : Next
  waits : Next

module _ {Io : Type 0} where
  -- `set_pc` with `check_pc_alignment`.
  unfoldable pub set_pc : ℕ → Action Io ℕ
  set_pc target m =
      if bit_and target (not64 (pc_alignment_mask m.hart)) == 0
      then (ok target, m)
      else (threw (misaligned_fault fetch target), m)

  -- `serialize()` with the next program counter.
  unfoldable pub serialize : ℕ → Action Io Next
  serialize npc m = (
    ok serialize_after,
    with_hart m (record m.hart { pc = bit_and npc (pc_alignment_mask m.hart) }),
  )

  unfoldable pub write_rd : (bits value : ℕ) → Action Io (Unit {0})
  write_rd bits value m = (ok tt, write_reg (rd bits) value m)

  -- An instruction that gives the hart's registers, with its program counter among them.
  unfoldable pub returns : (State → Outcome State) → Action Io Next
  returns f m = bind (f m.hart, m) (λ s m'. (ok serialize_after, with_hart m' s))

  -- `dret` starts a single step where `dcsr.step` asks for it.
  abbrev pub resumed : Machine Io → Machine Io
  resumed m = if m.hart.dcsr.step then record m { single_step = step_stepping } else m

  unfoldable pub exec_dret : (bits : ℕ) → Action Io Next
  exec_dret bits m =
      bind (dret m.hart (insn_bits bits), m)
        (λ s m'. (ok serialize_after, resumed (with_hart m' s)))

  -- A CSR instruction, on the number of its register operand and on the operand, when `validate_csr`
  -- finds the state serialized.
  unfoldable pub csr_access :
      (State → (reg operand : ℕ) → Outcome (ℕ × State)) → (bits operand npc : ℕ) → Action Io Next
  csr_access f bits operand npc m =
      bind (f m.hart (rs1 bits) operand, m)
        (λ r m'. serialize npc (write_reg (rd bits) (r.0 % 2 ^ 64) (with_hart m' r.1)))

  unfoldable pub csr_insn :
      (State → (reg operand : ℕ) → Outcome (ℕ × State)) → (bits operand npc : ℕ) → Action Io Next
  csr_insn f bits operand npc m =
      if m.serialized
      then csr_access f bits operand npc (record m { serialized = false })
      else (ok serialize_before, m)

  unfoldable pub wfi : (bits npc : ℕ) → Action Io Next
  wfi bits npc m =
      if ltb m.hart.prv (if flag m.hart.mstatus mstatus_tw then prv_m else prv_s)
      then (threw (illegal_instruction (insn_bits bits)), m)
      else if m.hart.v && flag m.hart.hstatus hstatus_vtw
      then (threw (virtual_instruction (insn_bits bits)), m)
      else (ok waits, with_hart m (record m.hart { pc = bit_and npc (pc_alignment_mask m.hart) }))

  unfoldable pub exec_system : Config → System → (bits npc : ℕ) → Action Io Next
  exec_system c rv64_fence bits npc m = (ok (at npc), m)
  exec_system c rv64_fence_i bits npc m = (ok (at npc), m)
  exec_system c rv64_ecall bits npc m = returns ecall m
  exec_system c rv64_ebreak bits npc m = returns ebreak m
  exec_system c rv64_mret bits npc m = returns (λ s. mret c s (insn_bits bits)) m
  exec_system c rv64_sret bits npc m = returns (λ s. sret c s (insn_bits bits)) m
  exec_system c rv64_dret bits npc m = exec_dret bits m
  exec_system c rv64_wfi bits npc m = wfi bits npc m
  exec_system c rv64_sfence_vma bits npc m =
      bind (sfence_vma m.hart (insn_bits bits), m) (λ s m'. (ok (at npc), m'))
  exec_system c rv64_csrrw bits npc m =
      csr_insn (λ s reg v. csrrw c s (insn_bits bits) (csr bits) v) bits (m.xpr (rs1 bits)) npc m
  exec_system c rv64_csrrs bits npc m =
      csr_insn (λ s reg v. csrrs c s (insn_bits bits) (csr bits) reg v) bits (m.xpr (rs1 bits)) npc
        m
  exec_system c rv64_csrrc bits npc m =
      csr_insn (λ s reg v. csrrc c s (insn_bits bits) (csr bits) reg v) bits (m.xpr (rs1 bits)) npc
        m
  exec_system c rv64_csrrwi bits npc m =
      csr_insn (λ s reg v. csrrw c s (insn_bits bits) (csr bits) v) bits (rs1 bits) npc m
  exec_system c rv64_csrrsi bits npc m =
      csr_insn (λ s reg v. csrrs c s (insn_bits bits) (csr bits) reg v) bits (rs1 bits) npc m
  exec_system c rv64_csrrci bits npc m =
      csr_insn (λ s reg v. csrrc c s (insn_bits bits) (csr bits) reg v) bits (rs1 bits) npc m

  unfoldable pub exec_op : Op → (bits npc : ℕ) → Action Io Next
  exec_op o bits npc m =
      if needs_m o && not (supports m.hart letter_m)
      then (threw (illegal_instruction (insn_bits bits)), m)
      else (ok (at npc), write_reg (rd bits) (op_value o (m.xpr (rs1 bits)) (m.xpr (rs2 bits))) m)

  unfoldable pub jump : (bits target npc : ℕ) → Action Io Next
  jump bits target npc = set_pc target >>= λ pc. write_rd bits npc >>= λ u. pure (at pc)

  unfoldable pub exec_load : Config → Simif Io → Load → (bits npc : ℕ) → Action Io Next
  exec_load c sim l bits npc m =
      bind (load_mem c sim ((m.xpr (rs1 bits) + i_imm bits) % 2 ^ 64) (load_size l) m)
        (λ v. write_rd bits (load_value l v) >>= λ u. pure (at npc))

  unfoldable pub exec_store : Config → Simif Io → Store → (bits npc : ℕ) → Action Io Next
  exec_store c sim t bits npc m =
      bind
        (store_mem c sim ((m.xpr (rs1 bits) + s_imm bits) % 2 ^ 64) (store_size t)
          (m.xpr (rs2 bits)) m)
        (λ u. pure (at npc))

  -- `fetch.func(p, fetch.insn, pc)`.
  unfoldable pub execute_insn : Config → Simif Io → Insn → (bits pc : ℕ) → Action Io Next
  execute_insn c sim f bits pc m =
      let npc = (pc + 4) % 2 ^ 64 in
      elim f [
        | rv64_lui ↦ (ok (at npc), write_reg (rd bits) (u_imm bits) m)
        | rv64_auipc ↦ (ok (at npc), write_reg (rd bits) ((u_imm bits + pc) % 2 ^ 64) m)
        | rv64_jal ↦ jump bits ((pc + uj_imm bits) % 2 ^ 64) npc m
        | rv64_jalr ↦ jump bits (bit_and ((m.xpr (rs1 bits) + i_imm bits) % 2 ^ 64) (not64 1)) npc m
        | Insn.illegal_instruction ↦ (threw (illegal_instruction (insn_bits bits)), m)
        | op o ↦ exec_op o bits npc m
        | op_imm o ↦
            (ok (at npc), write_reg (rd bits) (imm_value o (m.xpr (rs1 bits)) (i_imm bits)) m)
        | branch r ↦
            if taken r (m.xpr (rs1 bits)) (m.xpr (rs2 bits))
            then bind (set_pc ((pc + sb_imm bits) % 2 ^ 64) m) (λ target. pure (at target))
            else (ok (at npc), m)
        | load l ↦ exec_load c sim l bits npc m
        | store t ↦ exec_store c sim t bits npc m
        | system i ↦ exec_system c i bits npc m
      ]
