-- ===== src/Processor/Views.antt =====
-- What `get_csr` of riscv/processor.cc makes of the stored registers. On RV64 `xlen == 32` is false.
use processorfuzz.Base.{ℕ, zero, suc, ◌+◌, ◌-◌, ◌*◌, ◌/◌, ◌%◌, ◌^◌, bit_and, bit_or}
use processorfuzz.Base.{Bool, not, ◌&&◌, ◌||◌, ◌==◌, ltb, leb, of_bool, if◌then◌else◌, [], ◌∷◌}
use processorfuzz.Processor.State.{
  State, Config, Dcsr, Mcontrol, Trap, Outcome, ok, threw, supports, get_field, set_field, not64,
  prv_s, prv_m, letter_c, letter_f, letter_v, max_pmp,
}
use processorfuzz.Processor.Masks.{
  or_of, on, mstatus_sie, mstatus_spie, mstatus_spp, mstatus_fs, mstatus_vs, mstatus_xs,
  mstatus_sum, mstatus_mxr, mstatus_uxl, mstatus_tvm, mstatus64_sd, sstatus_vs_mask, hstatus_vtvm,
  mip_vs_mask, mip_hs_mask, pmp_a, pmp_napot, pmp_shift, cause_virtual_instruction,
}
use processorfuzz.Processor.Registers.{illegal_instruction}

abbrev pub virtual_instruction : ℕ → Trap
virtual_instruction bits = record (illegal_instruction bits) { cause = cause_virtual_instruction }

-- A value behind a test, or an illegal instruction.
abbrev pub read_if : Bool → ℕ → ℕ → Outcome ℕ
read_if allowed bits value = if allowed then ok value else threw (illegal_instruction bits)

abbrev bit : ℕ → ℕ → Bool
bit reg k = reg / 2 ^ k % 2 == 1

-- Whether the counter of the number `which` may be read, by the counter-enable registers.
unfoldable pub ctr_ok : State → ℕ → Bool
ctr_ok s which =
    let k = which % 32 in
    (leb prv_m s.prv || bit s.mcounteren k)
    && (not s.v || bit s.hcounteren k)
    && (leb prv_s s.prv || bit s.scounteren k)

unfoldable pub pc_alignment_mask : State → ℕ
pc_alignment_mask s = not64 (if supports s letter_c then 0 else 2)

unfoldable pub read_float : State → (bits value : ℕ) → Outcome ℕ
read_float s bits value =
    read_if (not (bit_and s.mstatus mstatus_fs == 0) && supports s letter_f) bits value

unfoldable pub read_vector : State → (bits value : ℕ) → Outcome ℕ
read_vector s bits value =
    read_if (not (bit_and s.mstatus mstatus_vs == 0) && supports s letter_v) bits value

-- The hypervisor alone keeps the counter from the guest.
abbrev kept_from_guest : State → ℕ → Bool
kept_from_guest s which =
    s.v && bit s.mcounteren (which % 32) && not (bit s.hcounteren (which % 32))

unfoldable pub read_counter : State → (bits which : ℕ) → Outcome ℕ
read_counter s bits which =
    if ctr_ok s which
    then ok s.minstret
    else if kept_from_guest s which
    then threw (virtual_instruction bits)
    else threw (illegal_instruction bits)

-- The high halves, which RV64 does not have.
unfoldable pub read_counter_high : State → (bits which : ℕ) → Outcome ℕ
read_counter_high s bits which =
    if kept_from_guest s which
    then threw (virtual_instruction bits)
    else threw (illegal_instruction bits)

unfoldable pub read_sstatus : State → ℕ
read_sstatus s =
    let mask = or_of (
      mstatus_sie
      ∷ mstatus_spie
      ∷ mstatus_spp
      ∷ mstatus_fs
      ∷ on (supports s letter_v) mstatus_vs
      ∷ mstatus_xs
      ∷ mstatus_sum
      ∷ mstatus_mxr
      ∷ mstatus_uxl
      ∷ []) in
    let sstatus = bit_and s.mstatus mask in
    if bit_and sstatus mstatus_fs == mstatus_fs || bit_and sstatus mstatus_xs == mstatus_xs
    then bit_or sstatus mstatus64_sd
    else sstatus

-- `sip` and `sie`, from `mip` and `mie`.
unfoldable pub read_pending : State → ℕ → ℕ
read_pending s reg =
    if s.v
    then bit_and (bit_and reg s.hideleg) mip_vs_mask / 2
    else bit_and (bit_and reg s.mideleg) (not64 mip_hs_mask)

unfoldable pub read_satp : State → ℕ → Outcome ℕ
read_satp s bits =
    if not (get_field s.mstatus mstatus_tvm == 0) && ltb s.prv prv_m
    then threw (illegal_instruction bits)
    else if s.v
    then if not (get_field s.hstatus hstatus_vtvm == 0)
      then threw (virtual_instruction bits)
      else ok s.vsatp
    else ok s.satp

unfoldable pub read_vsstatus : State → ℕ
read_vsstatus s = bit_and s.vsstatus (
    or_of (
      sstatus_vs_mask
      ∷ on (supports s letter_f) mstatus_fs
      ∷ on (supports s letter_v) mstatus_vs
      ∷ mstatus64_sd
      ∷ []))

unfoldable pub read_mcontrol : Mcontrol → ℕ
unfolding set_field
read_mcontrol mc =
    let v = set_field 0 (0xf * 2 ^ 60) mc.type in
    let v = set_field v (2 ^ 59) (of_bool mc.dmode) in
    let v = set_field v (0x3f * 2 ^ 53) mc.maskmax in
    let v = set_field v (2 ^ 19) (of_bool mc.select) in
    let v = set_field v (2 ^ 18) (of_bool mc.timing) in
    let v = set_field v (0x3f * 2 ^ 12) mc.action in
    let v = set_field v (2 ^ 11) (of_bool mc.chain) in
    let v = set_field v (0xf * 2 ^ 7) mc.match in
    let v = set_field v (2 ^ 6) (of_bool mc.m) in
    let v = set_field v (2 ^ 5) (of_bool mc.h) in
    let v = set_field v (2 ^ 4) (of_bool mc.s) in
    let v = set_field v (2 ^ 3) (of_bool mc.u) in
    let v = set_field v (2 ^ 2) (of_bool mc.execute) in
    let v = set_field v (2 ^ 1) (of_bool mc.store) in set_field v (2 ^ 0) (of_bool mc.load)

unfoldable pub read_dcsr : Dcsr → ℕ
unfolding set_field
read_dcsr d =
    let v = set_field 0 (3 * 2 ^ 30) 1 in
    let v = set_field v (2 ^ 15) (of_bool d.ebreakm) in
    let v = set_field v (2 ^ 14) (of_bool d.ebreakh) in
    let v = set_field v (2 ^ 13) (of_bool d.ebreaks) in
    let v = set_field v (2 ^ 12) (of_bool d.ebreaku) in
    let v = set_field v (2 ^ 10) 0 in
    let v = set_field v (2 ^ 9) 0 in
    let v = set_field v (7 * 2 ^ 6) d.cause in
    let v = set_field v (2 ^ 2) (of_bool d.step) in set_field v 3 d.prv

-- `-(1 << (lg_pmp_granularity - PMP_SHIFT))`.
abbrev pub pmp_tor_mask : Config → ℕ
pmp_tor_mask c = 2 ^ 64 - 2 ^ (c.lg_pmp_granularity - pmp_shift)

unfoldable pub read_pmpaddr : Config → State → (bits i : ℕ) → Outcome ℕ
read_pmpaddr c s bits i =
    if c.n_pmp == 0
    then threw (illegal_instruction bits)
    else if leb pmp_napot (bit_and (s.pmpcfg i) pmp_a)
    then ok (bit_or (s.pmpaddr i) ((2 ^ 64 - 1 - pmp_tor_mask c) / 2))
    else ok (bit_and (s.pmpaddr i) (pmp_tor_mask c))

-- The loop over the entries from `i` on, of which `left` are left: their bytes, lowest first.
unfoldable pub read_pmpcfgs : State → (left i : ℕ) → ℕ
read_pmpcfgs s zero i = 0
read_pmpcfgs s (suc left) i =
    let rest = read_pmpcfgs s left (i + 1) in
    if ltb i max_pmp then bit_or (s.pmpcfg i) (rest * 2 ^ 8 % 2 ^ 64) else 0
