-- ===== src/Processor/Write.antt =====
-- `set_csr` of riscv/processor.cc without the commit log: the choice of the register.
use processorfuzz.Base.{ℕ, ◌%◌, ◌^◌}
use processorfuzz.Processor.Number.{
  Csr, csr_of, csr_fflags, csr_frm, csr_fcsr, csr_vstart, csr_vxsat, csr_vxrm, csr_vcsr,
  csr_sstatus, csr_sie, csr_stvec, csr_scounteren, csr_sscratch, csr_sepc, csr_scause, csr_stval,
  csr_sip, csr_satp, csr_vsstatus, csr_vsie, csr_vstvec, csr_vsscratch, csr_vsepc, csr_vscause,
  csr_vstval, csr_vsip, csr_vsatp, csr_mstatus, csr_misa, csr_medeleg, csr_mideleg, csr_mie,
  csr_mtvec, csr_mcounteren, csr_mcountinhibit, csr_mscratch, csr_mepc, csr_mcause, csr_mtval,
  csr_mip, csr_mtinst, csr_mtval2, csr_hstatus, csr_hedeleg, csr_hideleg, csr_hie, csr_htimedelta,
  csr_hcounteren, csr_hgeie, csr_htimedeltah, csr_htval, csr_hip, csr_hvip, csr_htinst, csr_hgatp,
  csr_tselect, csr_tdata1, csr_tdata2, csr_tdata3, csr_dcsr, csr_dpc, csr_dscratch0, csr_dscratch1,
  csr_mcycle, csr_minstret, csr_mcycleh, csr_minstreth, csr_cycle, csr_instret, csr_vl, csr_vtype,
  csr_vlenb, csr_cycleh, csr_instreth, csr_hgeip, csr_mvendorid, csr_marchid, csr_mimpid,
  csr_mhartid, csr_pmpaddr, csr_pmpcfg, csr_hpmcounter, csr_mhpm, csr_unknown,
}
use processorfuzz.Processor.State.{State, Config, Outcome, ok, threw}
use processorfuzz.Processor.Status.{
  set_fflags, set_frm, set_fcsr, set_vcsr, set_mstatus, set_sstatus, set_vstart, set_vxsat,
  set_vxrm,
}
use processorfuzz.Processor.Interrupts.{
  set_mip, set_mie, set_mideleg, set_medeleg, set_minstret, set_minstreth, set_scounteren,
  set_mcounteren, set_sip, set_sie,
}
use processorfuzz.Processor.Registers.{
  set_satp, set_sepc, set_stvec, set_sscratch, set_scause, set_stval, set_mepc, set_mtvec,
  set_mscratch, set_mcause, set_mtval, set_mtval2, set_mtinst, set_misa, illegal_instruction,
}
use processorfuzz.Processor.Hypervisor.{
  set_hstatus, set_hedeleg, set_hideleg, set_hie, set_hcounteren, set_htval, set_hip, set_hvip,
  set_htinst, set_hgatp, set_vsstatus, set_vsie, set_vstvec, set_vsscratch, set_vsepc, set_vscause,
  set_vstval, set_vsip, set_vsatp,
}
use processorfuzz.Processor.Debug.{
  set_tselect, set_tdata1, set_tdata2, set_dcsr, set_dpc, set_dscratch0, set_dscratch1, set_pmpaddr,
  set_pmpcfg,
}

-- The registers that only `get_csr` names keep the state, and so does a number that neither names.
unfoldable pub write_csr : Config → State → Csr → ℕ → Outcome State
unfolding set_fflags set_frm set_fcsr set_vcsr set_mstatus set_sstatus set_vstart set_vxsat set_vxrm
    set_mip set_mie set_mideleg set_medeleg set_minstret set_minstreth set_scounteren set_mcounteren
    set_sip set_sie set_satp set_sepc set_stvec set_sscratch set_scause set_stval set_mepc set_mtvec
    set_mscratch set_mcause set_mtval set_mtval2 set_mtinst set_misa set_hstatus set_hedeleg
    set_hideleg set_hie set_hcounteren set_htval set_hip set_hvip set_htinst set_hgatp set_vsstatus
    set_vsie set_vstvec set_vsscratch set_vsepc set_vscause set_vstval set_vsip set_vsatp
    set_tselect set_tdata1 set_tdata2 set_dcsr set_dpc set_dscratch0 set_dscratch1 set_pmpaddr
    set_pmpcfg
write_csr c s csr_fflags val = ok (set_fflags s val)
write_csr c s csr_frm val = ok (set_frm s val)
write_csr c s csr_fcsr val = ok (set_fcsr s val)
write_csr c s csr_vstart val = ok (set_vstart c s val)
write_csr c s csr_vxsat val = ok (set_vxsat s val)
write_csr c s csr_vxrm val = ok (set_vxrm s val)
write_csr c s csr_vcsr val = ok (set_vcsr s val)
write_csr c s csr_sstatus val = ok (set_sstatus c s val)
write_csr c s csr_sie val = ok (set_sie s val)
write_csr c s csr_stvec val = ok (set_stvec s val)
write_csr c s csr_scounteren val = ok (set_scounteren s val)
write_csr c s csr_sscratch val = ok (set_sscratch s val)
write_csr c s csr_sepc val = ok (set_sepc s val)
write_csr c s csr_scause val = ok (set_scause s val)
write_csr c s csr_stval val = ok (set_stval s val)
write_csr c s csr_sip val = ok (set_sip s val)
write_csr c s csr_satp val = ok (set_satp s val)
write_csr c s csr_vsstatus val = ok (set_vsstatus s val)
write_csr c s csr_vsie val = ok (set_vsie s val)
write_csr c s csr_vstvec val = ok (set_vstvec s val)
write_csr c s csr_vsscratch val = ok (set_vsscratch s val)
write_csr c s csr_vsepc val = ok (set_vsepc s val)
write_csr c s csr_vscause val = ok (set_vscause s val)
write_csr c s csr_vstval val = ok (set_vstval s val)
write_csr c s csr_vsip val = ok (set_vsip s val)
write_csr c s csr_vsatp val = ok (set_vsatp s val)
write_csr c s csr_mstatus val = ok (set_mstatus c s val)
write_csr c s csr_misa val = ok (set_misa c s val)
write_csr c s csr_medeleg val = ok (set_medeleg s val)
write_csr c s csr_mideleg val = ok (set_mideleg c s val)
write_csr c s csr_mie val = ok (set_mie c s val)
write_csr c s csr_mtvec val = ok (set_mtvec s val)
write_csr c s csr_mcounteren val = ok (set_mcounteren s val)
write_csr c s csr_mcountinhibit val = ok s
write_csr c s csr_mscratch val = ok (set_mscratch s val)
write_csr c s csr_mepc val = ok (set_mepc s val)
write_csr c s csr_mcause val = ok (set_mcause s val)
write_csr c s csr_mtval val = ok (set_mtval s val)
write_csr c s csr_mip val = ok (set_mip s val)
write_csr c s csr_mtinst val = set_mtinst s val
write_csr c s csr_mtval2 val = set_mtval2 s val
write_csr c s csr_hstatus val = ok (set_hstatus s val)
write_csr c s csr_hedeleg val = ok (set_hedeleg s val)
write_csr c s csr_hideleg val = ok (set_hideleg s val)
write_csr c s csr_hie val = ok (set_hie s val)
write_csr c s csr_htimedelta val = threw (illegal_instruction 0)
write_csr c s csr_hcounteren val = ok (set_hcounteren s val)
write_csr c s csr_hgeie val = ok s
write_csr c s csr_htimedeltah val = threw (illegal_instruction 0)
write_csr c s csr_htval val = ok (set_htval s val)
write_csr c s csr_hip val = ok (set_hip s val)
write_csr c s csr_hvip val = ok (set_hvip s val)
write_csr c s csr_htinst val = ok (set_htinst s val)
write_csr c s csr_hgatp val = ok (set_hgatp s val)
write_csr c s csr_tselect val = ok (set_tselect s val)
write_csr c s csr_tdata1 val = ok (set_tdata1 s val)
write_csr c s csr_tdata2 val = ok (set_tdata2 s val)
write_csr c s csr_tdata3 val = ok s
write_csr c s csr_dcsr val = ok (set_dcsr s val)
write_csr c s csr_dpc val = ok (set_dpc s val)
write_csr c s csr_dscratch0 val = ok (set_dscratch0 s val)
write_csr c s csr_dscratch1 val = ok (set_dscratch1 s val)
write_csr c s csr_mcycle val = ok (set_minstret s val)
write_csr c s csr_minstret val = ok (set_minstret s val)
write_csr c s csr_mcycleh val = ok (set_minstreth s val)
write_csr c s csr_minstreth val = ok (set_minstreth s val)
write_csr c s csr_cycle val = ok s
write_csr c s csr_instret val = ok s
write_csr c s csr_vl val = ok s
write_csr c s csr_vtype val = ok s
write_csr c s csr_vlenb val = ok s
write_csr c s csr_cycleh val = ok s
write_csr c s csr_instreth val = ok s
write_csr c s csr_hgeip val = ok s
write_csr c s csr_mvendorid val = ok s
write_csr c s csr_marchid val = ok s
write_csr c s csr_mimpid val = ok s
write_csr c s csr_mhartid val = ok s
write_csr c s (csr_pmpaddr i) val = ok (set_pmpaddr c s i val)
write_csr c s (csr_pmpcfg i) val = ok (set_pmpcfg c s i val)
write_csr c s (csr_hpmcounter n) val = ok s
write_csr c s (csr_mhpm n) val = ok s
write_csr c s (csr_unknown n) val = ok s

unfoldable pub set_csr : Config → State → ℕ → ℕ → Outcome State
set_csr c s which val = write_csr c s (csr_of which) (val % 2 ^ 64)
