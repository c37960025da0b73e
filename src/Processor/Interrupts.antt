-- ===== src/Processor/Interrupts.antt =====
-- Writes of the interrupt, delegation and counter registers: the cases of `set_csr` of
-- riscv/processor.cc.
use processorfuzz.Base.{ℕ, ◌+◌, ◌-◌, ◌*◌, ◌/◌, ◌%◌, ◌^◌, bit_and, bit_or}
use processorfuzz.Base.{if◌then◌else◌, [], ◌∷◌}
use processorfuzz.Base.Digits.{merge}
use processorfuzz.Processor.State.{State, Config, supports, not64, letter_h, letter_s}
use processorfuzz.Processor.Masks.{
  or_of, on, mip_ssip, mip_vssip, mip_msip, mip_stip, mip_mtip, mip_seip, mip_meip, mip_vs_mask,
  mip_hs_mask, irq_cop,
}

abbrev pub supervisor_ints : State → ℕ
supervisor_ints s = on (supports s letter_s) (or_of (mip_ssip ∷ mip_stip ∷ mip_seip ∷ []))

abbrev pub hypervisor_ints : State → ℕ
hypervisor_ints s = on (supports s letter_h) mip_hs_mask

abbrev pub delegable_ints : Config → State → ℕ
delegable_ints c s = bit_or (supervisor_ints s) (on c.has_coprocessor (2 ^ irq_cop))

abbrev pub all_ints : Config → State → ℕ
all_ints c s = or_of (delegable_ints c s ∷ hypervisor_ints s ∷ mip_msip ∷ mip_mtip ∷ mip_meip ∷ [])

-- `(old & ~mask) | (val & mask)`.
abbrev pub write_under : (mask old val : ℕ) → ℕ
write_under mask old val = merge (not64 mask) mask old val

unfoldable pub set_mip : State → ℕ → State
set_mip s val =
    let vssip_int = on (supports s letter_h) mip_vssip in
    let mask =
      bit_and (bit_or (supervisor_ints s) (hypervisor_ints s))
        (or_of (mip_ssip ∷ mip_stip ∷ vssip_int ∷ mip_seip ∷ mip_meip ∷ [])) in
    record s { mip = write_under mask s.mip val }

unfoldable pub set_mie : Config → State → ℕ → State
set_mie c s val = record s { mie = write_under (all_ints c s) s.mie val }

unfoldable pub set_mideleg : Config → State → ℕ → State
set_mideleg c s val = record s { mideleg = write_under (delegable_ints c s) s.mideleg val }

-- Causes 0, 2, 3, 4, 6, 8, 12, 13 and 15.
abbrev pub medeleg_mask : ℕ
medeleg_mask =
    or_of
      (2 ^ 0x0 ∷ 2 ^ 0x2 ∷ 2 ^ 0x3 ∷ 2 ^ 0x4 ∷ 2 ^ 0x6 ∷ 2 ^ 0x8 ∷ 2 ^ 0xc ∷ 2 ^ 0xd ∷ 2 ^ 0xf ∷ [])

unfoldable pub set_medeleg : State → ℕ → State
set_medeleg s val = record s { medeleg = write_under medeleg_mask s.medeleg val }

-- Each write is one less, since the instruction itself counts.
unfoldable pub set_minstret : State → ℕ → State
set_minstret s val = record s { minstret = (val + 2 ^ 64 - 1) % 2 ^ 64 }

unfoldable pub set_minstreth : State → ℕ → State
set_minstreth s val =
    let high = bit_or (val * 2 ^ 32 % 2 ^ 64) (s.minstret * 2 ^ 32 % 2 ^ 64 / 2 ^ 32) in
    record s { minstret = (high + 2 ^ 64 - 1) % 2 ^ 64 }

unfoldable pub set_scounteren : State → ℕ → State
set_scounteren s val = record s { scounteren = val % 2 ^ 32 }

unfoldable pub set_mcounteren : State → ℕ → State
set_mcounteren s val = record s { mcounteren = val % 2 ^ 32 }

unfoldable pub set_sip : State → ℕ → State
set_sip s val =
    let mask = if s.v then bit_and s.hideleg mip_vssip else bit_and s.mideleg mip_ssip in
    let val' = if s.v then val * 2 % 2 ^ 64 else val in
    record s { mip = write_under mask s.mip val' }

unfoldable pub set_sie : State → ℕ → State
set_sie s val =
    let mask =
      if s.v then bit_and s.hideleg mip_vs_mask else bit_and s.mideleg (not64 mip_hs_mask) in
    let val' = if s.v then val * 2 % 2 ^ 64 else val in
    record s { mie = write_under mask s.mie val' }
