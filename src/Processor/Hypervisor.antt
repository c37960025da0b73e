-- ===== src/Processor/Hypervisor.antt =====
-- Writes of the registers of the hypervisor and of the virtual supervisor: the cases of `set_csr`
-- of riscv/processor.cc.
use processorfuzz.Base.{ℕ, ◌*◌, ◌%◌, ◌^◌, bit_and}
use processorfuzz.Base.{if◌then◌else◌, [], ◌∷◌}
use processorfuzz.Processor.State.{State, supports, not64, letter_f, letter_v}
use processorfuzz.Processor.Masks.{
  or_of, on, satp64_mode, satp64_ppn, mip_vssip, mip_vs_mask, mip_hs_mask, mstatus_fs, mstatus_vs,
  mstatus64_sd, sstatus_vs_mask, hstatus_vtsr, hstatus_vtw, hstatus_vtvm, hstatus_hu, hstatus_spvp,
  hstatus_spv, hstatus_gva,
}
use processorfuzz.Processor.Interrupts.{write_under}
use processorfuzz.Processor.Registers.{satp_mode_ok, rv64_ppn_mask}

unfoldable pub set_hstatus : State → ℕ → State
set_hstatus s val =
    let mask = or_of (
      hstatus_vtsr ∷ hstatus_vtw ∷ hstatus_vtvm ∷ hstatus_hu ∷ hstatus_spvp ∷ hstatus_spv
      ∷ hstatus_gva ∷ []) in
    record s { hstatus = write_under mask s.hstatus val }

-- Causes 0, 3, 4, 5, 6, 7, 8, 12, 13 and 15.
unfoldable pub set_hedeleg : State → ℕ → State
set_hedeleg s val =
    let mask = or_of (
      2 ^ 0x0
      ∷ 2 ^ 0x3
      ∷ 2 ^ 0x4
      ∷ 2 ^ 0x5
      ∷ 2 ^ 0x6
      ∷ 2 ^ 0x7
      ∷ 2 ^ 0x8
      ∷ 2 ^ 0xc
      ∷ 2 ^ 0xd
      ∷ 2 ^ 0xf
      ∷ []) in
    record s { hedeleg = write_under mask s.hedeleg val }

unfoldable pub set_hideleg : State → ℕ → State
set_hideleg s val = record s { hideleg = write_under mip_vs_mask s.hideleg val }

unfoldable pub set_hie : State → ℕ → State
set_hie s val = record s { mie = write_under mip_hs_mask s.mie val }

unfoldable pub set_hcounteren : State → ℕ → State
set_hcounteren s val = record s { hcounteren = val % 2 ^ 32 }

-- As in the source, a write of `htval` goes to `htinst`.
unfoldable pub set_htval : State → ℕ → State
set_htval s val = record s { htinst = val }

unfoldable pub set_hip : State → ℕ → State
set_hip s val = record s { mip = write_under mip_vssip s.mip val }

unfoldable pub set_hvip : State → ℕ → State
set_hvip s val = record s { mip = write_under mip_vs_mask s.mip val }

unfoldable pub set_htinst : State → ℕ → State
set_htinst s val = record s { htinst = val }

-- HGATP64_PPN and HGATP64_MODE are those of `satp`, and so are the modes.
unfoldable pub set_hgatp : State → ℕ → State
set_hgatp s val = record s {
  hgatp =
      if satp_mode_ok val
      then bit_and val (or_of (satp64_ppn ∷ satp64_mode ∷ rv64_ppn_mask ∷ []))
      else 0;
}

unfoldable pub set_vsstatus : State → ℕ → State
set_vsstatus s val =
    let mask = or_of (
      sstatus_vs_mask
      ∷ on (supports s letter_f) mstatus_fs
      ∷ on (supports s letter_v) mstatus_vs
      ∷ mstatus64_sd
      ∷ []) in
    record s { vsstatus = write_under mask s.vsstatus val }

unfoldable pub set_vsie : State → ℕ → State
set_vsie s val = record s {
  mie = write_under (bit_and s.hideleg mip_vs_mask) s.mie (val * 2 % 2 ^ 64);
}

unfoldable pub set_vstvec : State → ℕ → State
set_vstvec s val = record s { vstvec = bit_and val (not64 2) }

unfoldable pub set_vsscratch : State → ℕ → State
set_vsscratch s val = record s { vsscratch = val }

unfoldable pub set_vsepc : State → ℕ → State
set_vsepc s val = record s { vsepc = bit_and val (not64 1) }

unfoldable pub set_vscause : State → ℕ → State
set_vscause s val = record s { vscause = val }

unfoldable pub set_vstval : State → ℕ → State
set_vstval s val = record s { vstval = val }

unfoldable pub set_vsip : State → ℕ → State
set_vsip s val = record s {
  mip = write_under (bit_and s.hideleg mip_vssip) s.mip (val * 2 % 2 ^ 64);
}

unfoldable pub set_vsatp : State → ℕ → State
set_vsatp s val = record s {
  vsatp =
      if satp_mode_ok val
      then bit_and val (or_of (satp64_ppn ∷ satp64_mode ∷ rv64_ppn_mask ∷ []))
      else 0;
}
