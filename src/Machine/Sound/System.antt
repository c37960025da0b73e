-- ===== src/Machine/Sound/System.antt =====
-- The instructions of riscv/insns that change the privileged state keep the machine sound.
use processorfuzz.Base.{ℕ, false, ◌%◌, ◌^◌, ltb, arith, Bool, ◌==◌, ◌&&◌, if◌then◌else◌}
use processorfuzz.Processor.State.{State, Config, Outcome, aborted, Ensures, prv_m, prv_s, prv_u}
use processorfuzz.Processor.Views.{virtual_instruction}
use processorfuzz.Processor.Registers.{illegal_instruction}
use processorfuzz.Processor.Masks.{mstatus_tw, hstatus_vtw}
use processorfuzz.Processor.Privileged.{
  flag, plain_trap, access_csr, csrrw, csrrs, csrrc, mret, sret, dret, ecall, ebreak, sfence_vma,
}
use processorfuzz.Processor.Legal.{IsLegal}
use processorfuzz.Processor.Legal.Steps.{Ensures-unless, mret-IsLegal, sret-IsLegal, dret-IsLegal}
use processorfuzz.Machine.Hart.{Machine, step_stepping, with_hart}
use processorfuzz.Machine.Decode.{
  insn_bits, System, rd, rs1, csr, rv64_fence, rv64_fence_i, rv64_ecall, rv64_ebreak, rv64_mret,
  rv64_sret, rv64_dret, rv64_wfi, rv64_sfence_vma, rv64_csrrw, rv64_csrrs, rv64_csrrc, rv64_csrrwi,
  rv64_csrrsi, rv64_csrrci,
}
use processorfuzz.Machine.Execute.{
  serialize, returns, csr_access, csr_insn, resumed, exec_dret, wfi, exec_system,
}
use processorfuzz.Machine.Sound.{
  IsSound, Keeps, bind-Keeps, hart-IsSound, flags-IsSound, choose, Any, Keeps-if, threw-Keeps,
  Ensures-Any,
}
use processorfuzz.Machine.Sound.Next.{
  IsEven, IsNext, IsRead, write_reg-IsSound, legal_at, access_csr-IsLegal,
}

ecall-throws : (s : State) → Ensures IsLegal (ecall s)
unfolding ecall
ecall-throws s = Ensures-unless IsLegal (s.prv == prv_u) (plain_trap 0x8) _ (
    Ensures-unless IsLegal (s.prv == prv_s) (plain_trap (if s.v then 0xa else 0x9)) _
      (Ensures-unless IsLegal (s.prv == prv_m) (plain_trap 0xb) aborted tt))

module _ {Io : Type 0} where
  serialize-Keeps :
      (npc : ℕ) (m : Machine Io) → IsEven npc → IsSound m → Keeps IsNext (serialize npc m)
  unfolding serialize
  serialize-Keeps npc m e v = record {
    kept = hart-IsSound m _ v (legal_at m.hart npc e v.legal);
    result = tt;
  }

  returns-Keeps :
      (f : State → Outcome State) (m : Machine Io)
      → Ensures IsLegal (f m.hart)
      → IsSound m
      → Keeps IsNext (returns f m)
  unfolding returns
  returns-Keeps f m h v =
      bind-Keeps IsLegal IsNext (f m.hart, m) _ (record { kept = v; result = h })
        (λ s m1 l v1. record { kept = hart-IsSound m1 s v1 l; result = tt })

  csr_access-Keeps :
      (f : State → (reg operand : ℕ) → Outcome (ℕ × State)) (bits operand npc : ℕ) (m : Machine Io)
      → IsEven npc
      → Ensures IsRead (f m.hart (rs1 bits) operand)
      → IsSound m
      → Keeps IsNext (csr_access f bits operand npc m)
  unfolding csr_access
  csr_access-Keeps f bits operand npc m e h v =
      bind-Keeps IsRead IsNext (f m.hart (rs1 bits) operand, m) _ (record { kept = v; result = h })
        (λ r m1 l v1. serialize-Keeps npc _ e (
          write_reg-IsSound (rd bits) (r.0 % 2 ^ 64) (with_hart m1 r.1) (omega arith)
            (hart-IsSound m1 r.1 v1 l)))

  csr_insn-Keeps :
      (f : State → (reg operand : ℕ) → Outcome (ℕ × State)) (bits operand npc : ℕ) (m : Machine Io)
      → IsEven npc
      → Ensures IsRead (f m.hart (rs1 bits) operand)
      → IsSound m
      → Keeps IsNext (csr_insn f bits operand npc m)
  unfolding csr_insn
  csr_insn-Keeps f bits operand npc m e h v =
      Keeps-if IsNext m.serialized _ _
        (csr_access-Keeps f bits operand npc _ e h (flags-IsSound m false m.single_step v))
        (record { kept = v; result = tt })

  resumed-IsSound : (m : Machine Io) → IsSound m → IsSound (resumed m)
  resumed-IsSound m v =
      choose IsSound m.hart.dcsr.step _ m (flags-IsSound m m.serialized step_stepping v) v

  exec_dret-Keeps :
      (c : Config) (bits : ℕ) (m : Machine Io) → IsSound m → Keeps IsNext (exec_dret bits m)
  unfolding exec_dret
  exec_dret-Keeps c bits m v =
      bind-Keeps IsLegal IsNext (dret m.hart (insn_bits bits), m) _
        (record { kept = v; result = dret-IsLegal c m.hart (insn_bits bits) v.legal })
        (λ s m1 l v1. record {
          kept = resumed-IsSound (with_hart m1 s) (hart-IsSound m1 s v1 l);
          result = tt;
        })

  wfi-Keeps :
      (bits npc : ℕ) (m : Machine Io) → IsEven npc → IsSound m → Keeps IsNext (wfi bits npc m)
  unfolding wfi
  wfi-Keeps bits npc m e v =
      Keeps-if IsNext (ltb m.hart.prv (if flag m.hart.mstatus mstatus_tw then prv_m else prv_s)) _ _
        (threw-Keeps IsNext (illegal_instruction (insn_bits bits)) m v)
        (Keeps-if IsNext (m.hart.v && flag m.hart.hstatus hstatus_vtw) _ _
          (threw-Keeps IsNext (virtual_instruction (insn_bits bits)) m v)
          (record { kept = hart-IsSound m _ v (legal_at m.hart npc e v.legal); result = tt }))

  module _ (c : Config) (bits npc : ℕ) (m : Machine Io) (e : IsEven npc) (v : IsSound m) where
    accessed :
        (which : ℕ) (write : Bool) (new : ℕ → ℕ)
        → Ensures IsRead (access_csr c m.hart (insn_bits bits) which write new)
    accessed which write new = access_csr-IsLegal c m.hart (insn_bits bits) which write new v.legal

    pub exec_system-Keeps : (i : System) → Keeps IsNext (exec_system c i bits npc m)
    unfolding exec_system csrrw csrrs csrrc ebreak ecall
    exec_system-Keeps rv64_fence = record { kept = v; result = e }
    exec_system-Keeps rv64_fence_i = record { kept = v; result = e }
    exec_system-Keeps rv64_ecall = returns-Keeps ecall m (ecall-throws m.hart) v
    exec_system-Keeps rv64_ebreak = returns-Keeps ebreak m tt v
    exec_system-Keeps rv64_mret =
        returns-Keeps (λ s. mret c s (insn_bits bits)) m
          (mret-IsLegal c m.hart (insn_bits bits) v.legal) v
    exec_system-Keeps rv64_sret =
        returns-Keeps (λ s. sret c s (insn_bits bits)) m
          (sret-IsLegal c m.hart (insn_bits bits) v.legal) v
    exec_system-Keeps rv64_dret = exec_dret-Keeps c bits m v
    exec_system-Keeps rv64_wfi = wfi-Keeps bits npc m e v
    exec_system-Keeps rv64_sfence_vma =
        bind-Keeps Any IsNext (sfence_vma m.hart (insn_bits bits), m) _
          (record { kept = v; result = Ensures-Any _ })
          (λ s m1 u v1. record { kept = v1; result = e })
    exec_system-Keeps rv64_csrrw =
        csr_insn-Keeps _ bits (m.xpr (rs1 bits)) npc m e (accessed (csr bits) _ _) v
    exec_system-Keeps rv64_csrrs =
        csr_insn-Keeps _ bits (m.xpr (rs1 bits)) npc m e (accessed (csr bits) _ _) v
    exec_system-Keeps rv64_csrrc =
        csr_insn-Keeps _ bits (m.xpr (rs1 bits)) npc m e (accessed (csr bits) _ _) v
    exec_system-Keeps rv64_csrrwi =
        csr_insn-Keeps _ bits (rs1 bits) npc m e (accessed (csr bits) _ _) v
    exec_system-Keeps rv64_csrrsi =
        csr_insn-Keeps _ bits (rs1 bits) npc m e (accessed (csr bits) _ _) v
    exec_system-Keeps rv64_csrrci =
        csr_insn-Keeps _ bits (rs1 bits) npc m e (accessed (csr bits) _ _) v
