-- ===== src/Machine/Run/Asks.antt =====
-- An instruction of riscv/execute.cc that asks to be run again with the state serialized lowers the
-- rank when it is.
use processorfuzz.Base.{
  ℕ, suc, ◌+◌, ◌%◌, ◌^◌, ◌≤◌, ◌≡◌, arith, Bool, true, false, not, ◌&&◌, ltb, if◌then◌else◌,
}
use processorfuzz.Processor.State.{
  State, Config, Outcome, ok, threw, aborted, supports, prv_m, prv_s,
}
use processorfuzz.Processor.Masks.{mstatus_tw, hstatus_vtw}
use processorfuzz.Processor.Privileged.{flag, mret, sret, dret, ecall, ebreak, sfence_vma}
use processorfuzz.Machine.Hart.{Machine, Simif, Action, bind}
use processorfuzz.Machine.Access.{load_insn, load_mem, store_mem}
use processorfuzz.Machine.Decode.{
  Insn, System, op, op_imm, branch, load, store, system, insn_bits, rs1, rs2, sb_imm, i_imm, s_imm,
  rv64_lui, rv64_auipc, rv64_jal, rv64_jalr, rv64_fence, rv64_fence_i, rv64_ecall, rv64_ebreak,
  rv64_mret, rv64_sret, rv64_dret, rv64_wfi, rv64_sfence_vma, rv64_csrrw, rv64_csrrs, rv64_csrrc,
  rv64_csrrwi, rv64_csrrsi, rv64_csrrci,
}
use processorfuzz.Machine.Values.{needs_m, taken, load_size, store_size, letter_m}
use processorfuzz.Machine.Execute.{
  Next, at, serialize_before, serialize_after, waits, set_pc, serialize, write_rd, returns,
  csr_access, csr_insn, exec_dret, wfi, exec_system, exec_op, jump, exec_load, exec_store,
  execute_insn,
}
use processorfuzz.Machine.Sound.{choose}
use processorfuzz.Machine.Run.{Interrupts, assert_int, instruction}
use processorfuzz.Machine.Run.Rank.{
  rank, choose_by, SameRank, assert_int-SameRank, load_insn-SameRank,
}

module _ {Io : Type 0} where
  -- Where an instruction asks to be run again, the rank is below `k` when it is.
  abbrev pub Lowers : ℕ → Outcome Next × Machine Io → Type 0
  Lowers k (ok serialize_before, m) = suc (rank (record m { serialized = true })) ≤ k
  Lowers k (ok (at npc), m) = Unit
  Lowers k (ok serialize_after, m) = Unit
  Lowers k (ok waits, m) = Unit
  Lowers k (threw t, m) = Unit
  Lowers k (aborted, m) = Unit

  Lowers-bind :
      {A : Type 0} (k : ℕ) (r : Outcome A × Machine Io) (f : A → Action Io Next)
      → ((a : A) (m' : Machine Io) → Lowers k (f a m'))
      → Lowers k (bind r f)
  Lowers-bind k (ok a, m) f h = h a m
  Lowers-bind k (threw t, m) f h = tt
  Lowers-bind k (aborted, m) f h = tt

  Lowers-after :
      {A : Type 0} (m : Machine Io) (r : Outcome A × Machine Io) (f : A → Action Io Next)
      → SameRank m r
      → ((a : A) (m' : Machine Io) → Lowers (rank m') (f a m'))
      → Lowers (rank m) (bind r f)
  Lowers-after m (ok a, m') f e h = rw⁻¹ e (h a m')
  Lowers-after m (threw t, m') f e h = tt
  Lowers-after m (aborted, m') f e h = tt

  Lowers-if :
      (k : ℕ) (b : Bool) (r r' : Outcome Next × Machine Io)
      → Lowers k r
      → Lowers k r'
      → Lowers k (if b then r else r')
  Lowers-if k b r r' p q = choose (Lowers k) b r r' p q

  asks-Lowers : (m : Machine Io) → m.serialized ≡ false → Lowers (rank m) (ok serialize_before, m)
  asks-Lowers m h = rw h (omega arith)

  returns-Lowers : (k : ℕ) (f : State → Outcome State) (m : Machine Io) → Lowers k (returns f m)
  unfolding returns
  returns-Lowers k f m = Lowers-bind k (f m.hart, m) _ (λ s m'. tt)

  -- Only a CSR instruction asks to be run again, when the state is not serialized.
  csr_insn-Lowers :
      (f : State → (reg operand : ℕ) → Outcome (ℕ × State)) (bits operand npc : ℕ) (m : Machine Io)
      → Lowers (rank m) (csr_insn f bits operand npc m)
  unfolding csr_insn csr_access serialize
  csr_insn-Lowers f bits operand npc m =
      choose_by (Lowers (rank m)) m.serialized _ (ok serialize_before, m)
        (λ y.
          Lowers-bind (rank m) (f m.hart (rs1 bits) operand, record m { serialized = false }) _
            (λ r m'. tt))
        (asks-Lowers m)

  wfi-Lowers : (k bits npc : ℕ) (m : Machine Io) → Lowers k (wfi bits npc m)
  unfolding wfi
  wfi-Lowers k bits npc m =
      Lowers-if k (ltb m.hart.prv (if flag m.hart.mstatus mstatus_tw then prv_m else prv_s)) _ _ tt
        (Lowers-if k (m.hart.v && flag m.hart.hstatus hstatus_vtw) _ _ tt tt)

  exec_system-Lowers :
      (c : Config) (i : System) (bits npc : ℕ) (m : Machine Io)
      → Lowers (rank m) (exec_system c i bits npc m)
  unfolding exec_system exec_dret
  exec_system-Lowers c rv64_fence bits npc m = tt
  exec_system-Lowers c rv64_fence_i bits npc m = tt
  exec_system-Lowers c rv64_ecall bits npc m = returns-Lowers (rank m) ecall m
  exec_system-Lowers c rv64_ebreak bits npc m = returns-Lowers (rank m) ebreak m
  exec_system-Lowers c rv64_mret bits npc m =
      returns-Lowers (rank m) (λ s. mret c s (insn_bits bits)) m
  exec_system-Lowers c rv64_sret bits npc m =
      returns-Lowers (rank m) (λ s. sret c s (insn_bits bits)) m
  exec_system-Lowers c rv64_dret bits npc m =
      Lowers-bind (rank m) (dret m.hart (insn_bits bits), m) _ (λ s m'. tt)
  exec_system-Lowers c rv64_wfi bits npc m = wfi-Lowers (rank m) bits npc m
  exec_system-Lowers c rv64_sfence_vma bits npc m =
      Lowers-bind (rank m) (sfence_vma m.hart (insn_bits bits), m) _ (λ s m'. tt)
  exec_system-Lowers c rv64_csrrw bits npc m = csr_insn-Lowers _ bits (m.xpr (rs1 bits)) npc m
  exec_system-Lowers c rv64_csrrs bits npc m = csr_insn-Lowers _ bits (m.xpr (rs1 bits)) npc m
  exec_system-Lowers c rv64_csrrc bits npc m = csr_insn-Lowers _ bits (m.xpr (rs1 bits)) npc m
  exec_system-Lowers c rv64_csrrwi bits npc m = csr_insn-Lowers _ bits (rs1 bits) npc m
  exec_system-Lowers c rv64_csrrsi bits npc m = csr_insn-Lowers _ bits (rs1 bits) npc m
  exec_system-Lowers c rv64_csrrci bits npc m = csr_insn-Lowers _ bits (rs1 bits) npc m

  jump-Lowers : (k bits target npc : ℕ) (m : Machine Io) → Lowers k (jump bits target npc m)
  unfolding jump write_rd
  jump-Lowers k bits target npc m = Lowers-bind k (set_pc target m) _ (λ pc m'. tt)

  execute_insn-Lowers :
      (c : Config) (sim : Simif Io) (f : Insn) (bits pc : ℕ) (m : Machine Io)
      → Lowers (rank m) (execute_insn c sim f bits pc m)
  unfolding execute_insn exec_op exec_load exec_store write_rd
  execute_insn-Lowers c sim rv64_lui bits pc m = tt
  execute_insn-Lowers c sim rv64_auipc bits pc m = tt
  execute_insn-Lowers c sim rv64_jal bits pc m = jump-Lowers (rank m) bits _ _ m
  execute_insn-Lowers c sim rv64_jalr bits pc m = jump-Lowers (rank m) bits _ _ m
  execute_insn-Lowers c sim Insn.illegal_instruction bits pc m = tt
  execute_insn-Lowers c sim (op o) bits pc m =
      Lowers-if (rank m) (needs_m o && not (supports m.hart letter_m)) _ _ tt tt
  execute_insn-Lowers c sim (op_imm o) bits pc m = tt
  execute_insn-Lowers c sim (branch r) bits pc m =
      Lowers-if (rank m) (taken r (m.xpr (rs1 bits)) (m.xpr (rs2 bits))) _ _
        (Lowers-bind (rank m) (set_pc ((pc + sb_imm bits) % 2 ^ 64) m) _ (λ target m'. tt)) tt
  execute_insn-Lowers c sim (load l) bits pc m =
      Lowers-bind (rank m)
        (load_mem c sim ((m.xpr (rs1 bits) + i_imm bits) % 2 ^ 64) (load_size l) m) _ (λ v m'. tt)
  execute_insn-Lowers c sim (store t) bits pc m =
      Lowers-bind (rank m)
        (store_mem c sim ((m.xpr (rs1 bits) + s_imm bits) % 2 ^ 64) (store_size t)
          (m.xpr (rs2 bits)) m)
        _ (λ u m'. tt)
  execute_insn-Lowers c sim (system i) bits pc m = exec_system-Lowers c i bits ((pc + 4) % 2 ^ 64) m

  module _ (c : Config) (sim : Simif Io) where
    pub instruction-Lowers :
        (intrs : Interrupts) (slow : Bool) (pc : ℕ) (m : Machine Io)
        → Lowers (rank m) (instruction c sim intrs slow pc m)
    unfolding instruction
    instruction-Lowers intrs slow pc m =
        choose (λ (a : Action Io Next). Lowers (rank m) (a m)) slow _ _
          (Lowers-after m (assert_int intrs pc m) _ (assert_int-SameRank intrs pc m) (λ u m1.
            Lowers-after m1 (load_insn c sim pc m1) _ (load_insn-SameRank c sim pc m1)
              (λ f m2. execute_insn-Lowers c sim f.0 f.1 pc m2)))
          (Lowers-after m (load_insn c sim pc m) _ (load_insn-SameRank c sim pc m) (λ f m1.
            Lowers-after m1 (assert_int intrs pc m1) _ (assert_int-SameRank intrs pc m1)
              (λ u m2. execute_insn-Lowers c sim f.0 f.1 pc m2)))
