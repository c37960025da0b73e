-- ===== src/Processor/Masks.antt =====
-- Bits of the control and status registers, riscv/encoding.h.
use processorfuzz.Base.{ℕ, Bool, bit_or, if◌then◌else◌, List, [], ◌∷◌}

-- The union of some masks.
abbrev pub or_of : List ℕ → ℕ
or_of [] = 0
or_of (m ∷ ms) = bit_or m (or_of ms)

-- `b ? mask : 0`.
abbrev pub on : Bool → ℕ → ℕ
on b mask = if b then mask else 0

abbrev pub mstatus_sie : ℕ
mstatus_sie = 0x2

abbrev pub mstatus_mie : ℕ
mstatus_mie = 0x8

abbrev pub mstatus_spie : ℕ
mstatus_spie = 0x20

abbrev pub mstatus_mpie : ℕ
mstatus_mpie = 0x80

abbrev pub mstatus_spp : ℕ
mstatus_spp = 0x100

abbrev pub mstatus_vs : ℕ
mstatus_vs = 0x600

abbrev pub mstatus_mpp : ℕ
mstatus_mpp = 0x1800

abbrev pub mstatus_fs : ℕ
mstatus_fs = 0x6000

abbrev pub mstatus_xs : ℕ
mstatus_xs = 0x1_8000

abbrev pub mstatus_mprv : ℕ
mstatus_mprv = 0x2_0000

abbrev pub mstatus_sum : ℕ
mstatus_sum = 0x4_0000

abbrev pub mstatus_mxr : ℕ
mstatus_mxr = 0x8_0000

abbrev pub mstatus_tvm : ℕ
mstatus_tvm = 0x10_0000

abbrev pub mstatus_tw : ℕ
mstatus_tw = 0x20_0000

abbrev pub mstatus_tsr : ℕ
mstatus_tsr = 0x40_0000

abbrev pub mstatus_uxl : ℕ
mstatus_uxl = 0x3_0000_0000

abbrev pub mstatus_sxl : ℕ
mstatus_sxl = 0xc_0000_0000

abbrev pub mstatus_gva : ℕ
mstatus_gva = 0x40_0000_0000

abbrev pub mstatus_mpv : ℕ
mstatus_mpv = 0x80_0000_0000

abbrev pub mstatus64_sd : ℕ
mstatus64_sd = 0x8000_0000_0000_0000

-- SSTATUS_SIE, SPIE, SPP, SUM, MXR and UXL.
abbrev pub sstatus_vs_mask : ℕ
sstatus_vs_mask = 0x3_000c_0122

abbrev pub hstatus_gva : ℕ
hstatus_gva = 0x40

abbrev pub hstatus_spv : ℕ
hstatus_spv = 0x80

abbrev pub hstatus_spvp : ℕ
hstatus_spvp = 0x100

abbrev pub hstatus_hu : ℕ
hstatus_hu = 0x200

abbrev pub hstatus_vtvm : ℕ
hstatus_vtvm = 0x10_0000

abbrev pub hstatus_vtw : ℕ
hstatus_vtw = 0x20_0000

abbrev pub hstatus_vtsr : ℕ
hstatus_vtsr = 0x40_0000

abbrev pub mip_ssip : ℕ
mip_ssip = 0x2

abbrev pub mip_vssip : ℕ
mip_vssip = 0x4

abbrev pub mip_msip : ℕ
mip_msip = 0x8

abbrev pub mip_stip : ℕ
mip_stip = 0x20

abbrev pub mip_vstip : ℕ
mip_vstip = 0x40

abbrev pub mip_mtip : ℕ
mip_mtip = 0x80

abbrev pub mip_seip : ℕ
mip_seip = 0x200

abbrev pub mip_vseip : ℕ
mip_vseip = 0x400

abbrev pub mip_meip : ℕ
mip_meip = 0x800

abbrev pub mip_vs_mask : ℕ
mip_vs_mask = 0x444

abbrev pub mip_hs_mask : ℕ
mip_hs_mask = 0x1444

abbrev pub irq_m_ext : ℕ
irq_m_ext = 11

abbrev pub irq_cop : ℕ
irq_cop = 12

abbrev pub pmp_r : ℕ
pmp_r = 0x01

abbrev pub pmp_w : ℕ
pmp_w = 0x02

abbrev pub pmp_x : ℕ
pmp_x = 0x04

abbrev pub pmp_a : ℕ
pmp_a = 0x18

abbrev pub pmp_l : ℕ
pmp_l = 0x80

abbrev pub pmp_shift : ℕ
pmp_shift = 2

abbrev pub pmp_tor : ℕ
pmp_tor = 0x08

abbrev pub pmp_na4 : ℕ
pmp_na4 = 0x10

abbrev pub pmp_napot : ℕ
pmp_napot = 0x18

abbrev pub satp64_mode : ℕ
satp64_mode = 0xf000_0000_0000_0000

abbrev pub satp64_ppn : ℕ
satp64_ppn = 0x0fff_ffff_ffff

abbrev pub cause_illegal_instruction : ℕ
cause_illegal_instruction = 0x2

abbrev pub cause_breakpoint : ℕ
cause_breakpoint = 0x3

abbrev pub cause_virtual_instruction : ℕ
cause_virtual_instruction = 0x16

-- MAX_PADDR_BITS of riscv/mmu.h.
abbrev pub max_paddr_bits : ℕ
max_paddr_bits = 32
