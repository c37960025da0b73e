-- ===== src/Processor/Number.antt =====
-- The numbers of the control and status registers, riscv/encoding.h of
-- original/Fuzzer/ISASim/riscv-isa-sim: the registers that `set_csr` and `get_csr` of processor.cc
-- name, and the ranges that they compare with.
use processorfuzz.Base.{ℕ, ◌-◌, Bool, ◌&&◌, leb, ◌==◌, if◌then◌else◌}
use processorfuzz.Base.{List, [], ◌∷◌}

-- A register. `csr_hpmcounter` is any of CSR_HPMCOUNTER3 to 31, `csr_mhpm` any of
-- CSR_MHPMCOUNTER3 to 31 and CSR_MHPMEVENT3 to 31, and `csr_unknown` any other number.
pub data Csr : Type 0 where
  csr_fflags csr_frm csr_fcsr csr_vstart csr_vxsat csr_vxrm csr_vcsr csr_sstatus csr_sie : Csr
  csr_stvec csr_scounteren csr_sscratch csr_sepc csr_scause csr_stval csr_sip csr_satp : Csr
  csr_vsstatus csr_vsie csr_vstvec csr_vsscratch csr_vsepc csr_vscause csr_vstval csr_vsip : Csr
  csr_vsatp csr_mstatus csr_misa csr_medeleg csr_mideleg csr_mie csr_mtvec csr_mcounteren : Csr
  csr_mcountinhibit csr_mscratch csr_mepc csr_mcause csr_mtval csr_mip csr_mtinst csr_mtval2 : Csr
  csr_hstatus csr_hedeleg csr_hideleg csr_hie csr_htimedelta csr_hcounteren csr_hgeie : Csr
  csr_htimedeltah csr_htval csr_hip csr_hvip csr_htinst csr_hgatp csr_tselect csr_tdata1 : Csr
  csr_tdata2 csr_tdata3 csr_dcsr csr_dpc csr_dscratch0 csr_dscratch1 csr_mcycle csr_minstret : Csr
  csr_mcycleh csr_minstreth csr_cycle csr_instret csr_vl csr_vtype csr_vlenb csr_cycleh : Csr
  csr_instreth csr_hgeip csr_mvendorid csr_marchid csr_mimpid csr_mhartid : Csr
  csr_pmpaddr csr_pmpcfg csr_hpmcounter csr_mhpm csr_unknown : ℕ → Csr

abbrev csr_table : List (ℕ × Csr)
csr_table =
    (0x1, csr_fflags)
    ∷ (0x2, csr_frm)
    ∷ (0x3, csr_fcsr)
    ∷ (0x8, csr_vstart)
    ∷ (0x9, csr_vxsat)
    ∷ (0xa, csr_vxrm)
    ∷ (0xf, csr_vcsr)
    ∷ (0x100, csr_sstatus)
    ∷ (0x104, csr_sie)
    ∷ (0x105, csr_stvec)
    ∷ (0x106, csr_scounteren)
    ∷ (0x140, csr_sscratch)
    ∷ (0x141, csr_sepc)
    ∷ (0x142, csr_scause)
    ∷ (0x143, csr_stval)
    ∷ (0x144, csr_sip)
    ∷ (0x180, csr_satp)
    ∷ (0x200, csr_vsstatus)
    ∷ (0x204, csr_vsie)
    ∷ (0x205, csr_vstvec)
    ∷ (0x240, csr_vsscratch)
    ∷ (0x241, csr_vsepc)
    ∷ (0x242, csr_vscause)
    ∷ (0x243, csr_vstval)
    ∷ (0x244, csr_vsip)
    ∷ (0x280, csr_vsatp)
    ∷ (0x300, csr_mstatus)
    ∷ (0x301, csr_misa)
    ∷ (0x302, csr_medeleg)
    ∷ (0x303, csr_mideleg)
    ∷ (0x304, csr_mie)
    ∷ (0x305, csr_mtvec)
    ∷ (0x306, csr_mcounteren)
    ∷ (0x320, csr_mcountinhibit)
    ∷ (0x340, csr_mscratch)
    ∷ (0x341, csr_mepc)
    ∷ (0x342, csr_mcause)
    ∷ (0x343, csr_mtval)
    ∷ (0x344, csr_mip)
    ∷ (0x34a, csr_mtinst)
    ∷ (0x34b, csr_mtval2)
    ∷ (0x600, csr_hstatus)
    ∷ (0x602, csr_hedeleg)
    ∷ (0x603, csr_hideleg)
    ∷ (0x604, csr_hie)
    ∷ (0x605, csr_htimedelta)
    ∷ (0x606, csr_hcounteren)
    ∷ (0x607, csr_hgeie)
    ∷ (0x615, csr_htimedeltah)
    ∷ (0x643, csr_htval)
    ∷ (0x644, csr_hip)
    ∷ (0x645, csr_hvip)
    ∷ (0x64a, csr_htinst)
    ∷ (0x680, csr_hgatp)
    ∷ (0x7a0, csr_tselect)
    ∷ (0x7a1, csr_tdata1)
    ∷ (0x7a2, csr_tdata2)
    ∷ (0x7a3, csr_tdata3)
    ∷ (0x7b0, csr_dcsr)
    ∷ (0x7b1, csr_dpc)
    ∷ (0x7b2, csr_dscratch0)
    ∷ (0x7b3, csr_dscratch1)
    ∷ (0xb00, csr_mcycle)
    ∷ (0xb02, csr_minstret)
    ∷ (0xb80, csr_mcycleh)
    ∷ (0xb82, csr_minstreth)
    ∷ (0xc00, csr_cycle)
    ∷ (0xc02, csr_instret)
    ∷ (0xc20, csr_vl)
    ∷ (0xc21, csr_vtype)
    ∷ (0xc22, csr_vlenb)
    ∷ (0xc80, csr_cycleh)
    ∷ (0xc82, csr_instreth)
    ∷ (0xe12, csr_hgeip)
    ∷ (0xf11, csr_mvendorid)
    ∷ (0xf12, csr_marchid)
    ∷ (0xf13, csr_mimpid)
    ∷ (0xf14, csr_mhartid)
    ∷ []

named : List (ℕ × Csr) → ℕ → Csr
named [] which = csr_unknown which
named ((n, c) ∷ rest) which = if which == n then c else named rest which

abbrev in_range : ℕ → ℕ → ℕ → Bool
in_range which low high = leb low which && leb which high

-- The register of a number, on RV64.
unfoldable pub csr_of : ℕ → Csr
unfolding named
csr_of which =
    if in_range which 0x3b0 0x3bf
    then csr_pmpaddr (which - 0x3b0)
    else if in_range which 0x3a0 0x3a3
    then csr_pmpcfg (which - 0x3a0)
    else if in_range which 0xc03 0xc1f
    then csr_hpmcounter which
    else if in_range which 0xb03 0xb1f
    then csr_mhpm which
    else if in_range which 0x323 0x33f
    then csr_mhpm which
    else named csr_table which
