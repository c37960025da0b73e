-- ===== src/Processor/Read.antt =====
-- `get_csr` of riscv/processor.cc: the choice of the register. `bits` are those of the instruction
-- that reads, which a thrown trap carries.
use processorfuzz.Base.{ℕ, ◌*◌, ◌/◌, ◌%◌, ◌^◌, bit_and, bit_or, ltb, ◌==◌, if◌then◌else◌}
use processorfuzz.Processor.Number.{
  Csr, csr_of, csr_fflags, csr_frm, csr_fcsr, csr_vstart, csr_vxsat, csr_vxrm, csr_vcsr,
  csr_sstatus, csr_sie, csr_stvec, csr_scounteren, csr_sscratch, csr_sepc, csr_scause, csr_stval,
  csr_sip, csr_satp, csr_vsstatus, csr_vsie, csr_vstvec, csr_vsscratch, csr_vsepc, csr_vscause,
  csr_vstval, csr_vsip, csr_vsatp, csr_mstatus, csr_misa, csr_medeleg, csr_mideleg, csr_mie,
  csr_mtvec, csr_mcounteren, csr_mcountinhibit, csr_mscratch, csr_mepc, csr_mcause, csr_mtval,
  csr_mip, csr_mtinst, csr_mtval2, csr_hstatus, csr_hedeleg, csr_hideleg, csr_hie, csr_htimedelta,
  csr_hcounteren, csr_hgeie, csr_htimedeltah, csr_htval, csr_hip, csr_hvip, csr_htinst, csr_hgatp,
  csr_tselect, csr_tdata1, csr_tdata2, csr_tdata3, csr_dcsr, csr_dpc, csr_dscratch0, csr_dscratch1,
  csr_mcycle, csr_minstret, csr_mcycleh, csr_minstreth, csr_cycle, csr_instret, csr_vl, csr_vtype,
  csr_vlenb, csr_cycleh, csr_instreth, csr_hgeip, csr_mvendorid, csr_marchid, csr_mimpid,
  csr_mhartid, csr_pmpaddr, csr_pmpcfg, csr_hpmcounter, csr_mhpm, csr_unknown,
}
use processorfuzz.Processor.State.{
  State, Config, Outcome, ok, threw, supports, num_triggers, letter_h, letter_s, letter_u,
}
use processorfuzz.Processor.Masks.{mip_hs_mask, mip_vs_mask}
use processorfuzz.Processor.Registers.{illegal_instruction}
use processorfuzz.Processor.Views.{
  ctr_ok, pc_alignment_mask, read_if, read_float, read_vector, read_counter, read_counter_high,
  read_sstatus, read_pending, read_satp, read_vsstatus, read_mcontrol, read_dcsr, read_pmpaddr,
  read_pmpcfgs,
}

unfoldable pub read_csr : Config → State → (bits which : ℕ) → Csr → Outcome ℕ
read_csr c s bits which csr_fflags = read_float s bits s.fflags
read_csr c s bits which csr_frm = read_float s bits s.frm
read_csr c s bits which csr_fcsr = read_float s bits (bit_or (s.fflags * 2 ^ 0) (s.frm * 2 ^ 5))
read_csr c s bits which csr_vstart = read_vector s bits s.vstart
read_csr c s bits which csr_vxsat = read_vector s bits s.vxsat
read_csr c s bits which csr_vxrm = read_vector s bits s.vxrm
read_csr c s bits which csr_vcsr = read_vector s bits (bit_or (s.vxsat * 2 ^ 0) (s.vxrm * 2 ^ 1))
read_csr c s bits which csr_sstatus = ok (read_sstatus s)
read_csr c s bits which csr_sie = ok (read_pending s s.mie)
read_csr c s bits which csr_stvec = ok (if s.v then s.vstvec else s.stvec)
read_csr c s bits which csr_scounteren = ok s.scounteren
read_csr c s bits which csr_sscratch = ok (if s.v then s.vsscratch else s.sscratch)
read_csr c s bits which csr_sepc =
    ok (bit_and (if s.v then s.vsepc else s.sepc) (pc_alignment_mask s))
read_csr c s bits which csr_scause = ok (if s.v then s.vscause else s.scause)
read_csr c s bits which csr_stval = ok (if s.v then s.vstval else s.stval)
read_csr c s bits which csr_sip = ok (read_pending s s.mip)
read_csr c s bits which csr_satp = read_satp s bits
read_csr c s bits which csr_vsstatus = ok (read_vsstatus s)
read_csr c s bits which csr_vsie = ok (bit_and (bit_and s.mie s.hideleg) mip_vs_mask / 2)
read_csr c s bits which csr_vstvec = ok s.vstvec
read_csr c s bits which csr_vsscratch = ok s.vsscratch
read_csr c s bits which csr_vsepc = ok (bit_and s.vsepc (pc_alignment_mask s))
read_csr c s bits which csr_vscause = ok s.vscause
read_csr c s bits which csr_vstval = ok s.vstval
read_csr c s bits which csr_vsip = ok (bit_and (bit_and s.mip s.hideleg) mip_vs_mask / 2)
read_csr c s bits which csr_vsatp = ok s.vsatp
read_csr c s bits which csr_mstatus = ok s.mstatus
read_csr c s bits which csr_misa = ok s.misa
read_csr c s bits which csr_medeleg = read_if (supports s letter_s) bits s.medeleg
read_csr c s bits which csr_mideleg = read_if (supports s letter_s) bits s.mideleg
read_csr c s bits which csr_mie = ok s.mie
read_csr c s bits which csr_mtvec = ok s.mtvec
read_csr c s bits which csr_mcounteren = read_if (supports s letter_u) bits s.mcounteren
read_csr c s bits which csr_mcountinhibit = ok 0
read_csr c s bits which csr_mscratch = ok s.mscratch
read_csr c s bits which csr_mepc = ok (bit_and s.mepc (pc_alignment_mask s))
read_csr c s bits which csr_mcause = ok s.mcause
read_csr c s bits which csr_mtval = ok s.mtval
read_csr c s bits which csr_mip = ok s.mip
read_csr c s bits which csr_mtinst = read_if (supports s letter_h) bits s.mtinst
read_csr c s bits which csr_mtval2 = read_if (supports s letter_h) bits s.mtval2
read_csr c s bits which csr_hstatus = ok s.hstatus
read_csr c s bits which csr_hedeleg = ok s.hedeleg
read_csr c s bits which csr_hideleg = ok s.hideleg
read_csr c s bits which csr_hie = ok (bit_and s.mie mip_hs_mask)
read_csr c s bits which csr_htimedelta = threw (illegal_instruction bits)
read_csr c s bits which csr_hcounteren = ok s.hcounteren
read_csr c s bits which csr_hgeie = ok 0
read_csr c s bits which csr_htimedeltah = threw (illegal_instruction bits)
read_csr c s bits which csr_htval = ok s.htval
read_csr c s bits which csr_hip = ok (bit_and s.mip mip_hs_mask)
read_csr c s bits which csr_hvip = ok (bit_and s.mip mip_vs_mask)
read_csr c s bits which csr_htinst = ok s.htinst
read_csr c s bits which csr_hgatp = ok s.hgatp
read_csr c s bits which csr_tselect = ok s.tselect
read_csr c s bits which csr_tdata1 =
    ok (if ltb s.tselect num_triggers then read_mcontrol (s.mcontrol s.tselect) else 0)
read_csr c s bits which csr_tdata2 =
    ok (if ltb s.tselect num_triggers then s.tdata2 s.tselect else 0)
read_csr c s bits which csr_tdata3 = ok 0
read_csr c s bits which csr_dcsr = read_if s.debug_mode bits (read_dcsr s.dcsr)
read_csr c s bits which csr_dpc = read_if s.debug_mode bits (bit_and s.dpc (pc_alignment_mask s))
read_csr c s bits which csr_dscratch0 = read_if s.debug_mode bits s.dscratch0
read_csr c s bits which csr_dscratch1 = read_if s.debug_mode bits s.dscratch1
read_csr c s bits which csr_mcycle = ok s.minstret
read_csr c s bits which csr_minstret = ok s.minstret
read_csr c s bits which csr_mcycleh = threw (illegal_instruction bits)
read_csr c s bits which csr_minstreth = threw (illegal_instruction bits)
read_csr c s bits which csr_cycle = read_counter s bits which
read_csr c s bits which csr_instret = read_counter s bits which
read_csr c s bits which csr_vl = read_vector s bits s.vl
read_csr c s bits which csr_vtype = read_vector s bits s.vtype
read_csr c s bits which csr_vlenb = read_vector s bits (c.vlen / 2 ^ 3)
read_csr c s bits which csr_cycleh = read_counter_high s bits which
read_csr c s bits which csr_instreth = read_counter_high s bits which
read_csr c s bits which csr_hgeip = ok 0
read_csr c s bits which csr_mvendorid = ok 0
read_csr c s bits which csr_marchid = ok 5
read_csr c s bits which csr_mimpid = ok 0
read_csr c s bits which csr_mhartid = ok c.hart_id
read_csr c s bits which (csr_pmpaddr i) = read_pmpaddr c s bits i
read_csr c s bits which (csr_pmpcfg i) = read_if (i % 2 == 0) bits (read_pmpcfgs s 8 (i * 4))
read_csr c s bits which (csr_hpmcounter n) = read_if (ctr_ok s which) bits 0
read_csr c s bits which (csr_mhpm n) = ok 0
read_csr c s bits which (csr_unknown n) = threw (illegal_instruction bits)

unfoldable pub get_csr : Config → State → (which bits : ℕ) → Outcome ℕ
get_csr c s which bits = read_csr c s bits which (csr_of which)
