-- ===== src/Processor/Privileged.antt =====
-- The privileged instructions: riscv/insns/mret.h, sret.h, ecall.h, ebreak.h, dret.h, sfence_vma.h,
-- csrrw.h, csrrs.h and csrrc.h, with `validate_csr` of riscv/decode.h. The flag `serialized`, by which
-- the simulator runs a CSR instruction again, the start of a single step by dret and the step to the
-- next instruction are with the hart, in Machine/Execute.
use processorfuzz.Base.{ℕ, bit_and, bit_or}
use processorfuzz.Base.{Bool, true, false, not, ◌&&◌, ◌||◌, ◌==◌, ltb, if◌then◌else◌}
use processorfuzz.Processor.State.{
  State, Config, Trap, Outcome, ok, threw, aborted, supports, get_field, set_field, not64, prv_u,
  prv_s, prv_hs, prv_m, letter_h, letter_s,
}
use processorfuzz.Processor.Masks.{
  mstatus_sie, mstatus_spie, mstatus_spp, mstatus_mie, mstatus_mpie, mstatus_mpp, mstatus_mpv,
  mstatus_tsr, mstatus_tvm, hstatus_spv, hstatus_vtsr, cause_breakpoint,
}
use processorfuzz.Processor.Registers.{illegal_instruction}
use processorfuzz.Processor.Views.{virtual_instruction, pc_alignment_mask}
use processorfuzz.Processor.Status.{set_mstatus}
use processorfuzz.Processor.Trap.{set_privilege, set_virt}
use processorfuzz.Processor.Write.{set_csr}
use processorfuzz.Processor.Read.{get_csr}

abbrev pub flag : ℕ → ℕ → Bool
flag reg mask = not (get_field reg mask == 0)

-- `mstatus` after the machine's handler.
abbrev pub pop_m : ℕ → ℕ
pop_m m =
    let m1 = set_field m mstatus_mie (get_field m mstatus_mpie) in
    set_field (set_field m1 mstatus_mpie 1) mstatus_mpp prv_u

unfoldable pub mret : Config → State → ℕ → Outcome State
mret c s bits =
    if ltb s.prv prv_m
    then threw (illegal_instruction bits)
    else let s1 = record s { pc = bit_and s.mepc (pc_alignment_mask s) } in
      let s2 =
        set_privilege (set_mstatus c s1 (pop_m s.mstatus)) (get_field s.mstatus mstatus_mpp) in
      ok (set_virt s2 (flag s.mstatus mstatus_mpv))

-- `mstatus` after a supervisor's handler.
abbrev pub pop_s : ℕ → ℕ
pop_s m =
    let m1 = set_field m mstatus_sie (get_field m mstatus_spie) in
    set_field (set_field m1 mstatus_spie 1) mstatus_spp prv_u

unfoldable pub sret : Config → State → ℕ → Outcome State
sret c s bits =
    if not (supports s letter_s) || ltb s.prv (if flag s.mstatus mstatus_tsr then prv_m else prv_s)
    then threw (illegal_instruction bits)
    else if s.v && flag s.hstatus hstatus_vtsr
    then threw (virtual_instruction bits)
    else let next_pc = if s.v then s.vsepc else s.sepc in
      let s1 = record s { pc = bit_and next_pc (pc_alignment_mask s) } in
      let s2 =
        set_privilege (set_mstatus c s1 (pop_s s.mstatus)) (get_field s.mstatus mstatus_spp) in
      ok (if s2.v then s2 else set_virt s2 (flag s2.hstatus hstatus_spv))

-- A trap that carries no value.
abbrev pub plain_trap : ℕ → Trap
plain_trap cause = record { cause = cause; tval = 0; tval2 = 0; tinst = 0; gva = false }

unfoldable pub ecall : State → Outcome State
ecall s =
    if s.prv == prv_u
    then threw (plain_trap 0x8)
    else if s.prv == prv_s
    then threw (plain_trap (if s.v then 0xa else 0x9))
    else if s.prv == prv_m
    then threw (plain_trap 0xb)
    else aborted

unfoldable pub ebreak : State → Outcome State
ebreak s = threw (plain_trap cause_breakpoint)

-- The single step that `dret` arms is left out.
unfoldable pub dret : State → ℕ → Outcome State
dret s bits =
    if not s.debug_mode
    then threw (illegal_instruction bits)
    else let s1 = record s { pc = bit_and s.dpc (pc_alignment_mask s) } in
      ok (record (set_privilege s1 s.dcsr.prv) { debug_mode = false })

-- There is no TLB to flush.
unfoldable pub sfence_vma : State → ℕ → Outcome State
sfence_vma s bits =
    if not (supports s letter_s) || ltb s.prv (if flag s.mstatus mstatus_tvm then prv_m else prv_s)
    then threw (illegal_instruction bits)
    else ok s

-- The level that a CSR's number asks for, bits 8 and 9, and whether it is read-only.
abbrev pub csr_priv : ℕ → ℕ
csr_priv which = get_field which 0x300

abbrev pub csr_read_only : ℕ → Bool
csr_read_only which = get_field which 0xc00 == 3

-- The level of the hart, with the supervisor of a hart that is no guest above the guest's.
abbrev pub state_prv : State → ℕ
state_prv s = if s.prv == prv_s && not s.v then prv_hs else s.prv

unfoldable pub validate_csr : State → (bits which : ℕ) → Bool → Outcome (Unit {0})
validate_csr s bits which write =
    if (csr_priv which == prv_s && not (supports s letter_s))
      || (csr_priv which == prv_hs && not (supports s letter_h))
    then threw (illegal_instruction bits)
    else if (write && csr_read_only which) || ltb (state_prv s) (csr_priv which)
    then if csr_priv which == prv_hs
      then threw (virtual_instruction bits)
      else threw (illegal_instruction bits)
    else ok tt

infixl 5 ◌>>=◌ ◌>>◌
abbrev pub ◌>>=◌ : {A B : Type 0} → Outcome A → (A → Outcome B) → Outcome B
ok a >>= f = f a
threw t >>= f = threw t
aborted >>= f = aborted

abbrev pub ◌>>◌ : {B : Type 0} → Outcome (Unit {0}) → Outcome B → Outcome B
m >> k = m >>= λ _. k

-- A CSR instruction that writes `new old` where `write` is set: the value read, and the state.
unfoldable pub access_csr :
    Config → State → (bits which : ℕ) → (write : Bool) → (new : ℕ → ℕ) → Outcome (ℕ × State)
access_csr c s bits which write new = do
  validate_csr s bits which write
  old ← get_csr c s which bits
  s' ← if write then set_csr c s which (new old) else ok s
  ok (old, s')

unfoldable pub csrrw : Config → State → (bits which rs1 : ℕ) → Outcome (ℕ × State)
csrrw c s bits which rs1 = access_csr c s bits which true (λ _. rs1)

-- `reg` is the number of the register that holds the operand; register zero means no write.
unfoldable pub csrrs : Config → State → (bits which reg rs1 : ℕ) → Outcome (ℕ × State)
csrrs c s bits which reg rs1 = access_csr c s bits which (not (reg == 0)) (λ old. bit_or old rs1)

unfoldable pub csrrc : Config → State → (bits which reg rs1 : ℕ) → Outcome (ℕ × State)
csrrc c s bits which reg rs1 =
    access_csr c s bits which (not (reg == 0)) (λ old. bit_and old (not64 rs1))
