-- ===== src/Processor/Registers.antt =====
-- Writes of the translation and trap registers of the supervisor and of the machine, and of
-- `misa`: the cases of `set_csr` of riscv/processor.cc.
use processorfuzz.Base.{ℕ, ◌+◌, ◌-◌, ◌*◌, ◌/◌, ◌%◌, ◌^◌, bit_and, bit_or}
use processorfuzz.Base.{Bool, not, ◌&&◌, ◌||◌, ◌==◌, if◌then◌else◌, [], ◌∷◌}
use processorfuzz.Processor.State.{
  State, Config, Trap, Outcome, ok, threw, supports, get_field, not64, letter_h,
}
use processorfuzz.Processor.Masks.{
  or_of, satp64_mode, satp64_ppn, max_paddr_bits, mip_hs_mask, cause_illegal_instruction,
}
use processorfuzz.Processor.Interrupts.{write_under}

abbrev pub illegal_instruction : ℕ → Trap
illegal_instruction bits = record {
  cause = cause_illegal_instruction;
  tval = bits;
  tval2 = 0;
  tinst = 0;
  gva = Bool.false;
}

-- The modes of `satp` that a write accepts: off, Sv39 and Sv48.
abbrev pub satp_mode_ok : ℕ → Bool
satp_mode_ok val = let mode = get_field val satp64_mode in mode == 0 || mode == 8 || mode == 9

abbrev pub rv64_ppn_mask : ℕ
rv64_ppn_mask = 2 ^ (max_paddr_bits - 12) - 1

unfoldable pub legal_satp : ℕ → ℕ
unfolding get_field
legal_satp val =
    if satp_mode_ok val
    then bit_and val (bit_or (bit_and satp64_ppn rv64_ppn_mask) satp64_mode)
    else 0

unfoldable pub set_satp : State → ℕ → State
set_satp s val = record s {
  vsatp = if s.v then legal_satp val else s.vsatp;
  satp = if s.v then s.satp else legal_satp val;
}

-- Forty bits, sign-extended, with the lowest bit clear, as on Rocket.
unfoldable pub legal_epc : ℕ → ℕ
legal_epc val =
    let mask = 2 ^ 40 - 1 in
    let upper_mask = (2 ^ 64 - bit_and (val / 2 ^ 39) 1) % 2 ^ 64 * 2 ^ 39 % 2 ^ 64 in
    bit_or upper_mask (bit_and (bit_and val (not64 1)) mask)

unfoldable pub set_sepc : State → ℕ → State
set_sepc s val = record s {
  vsepc = if s.v then bit_and val (not64 1) else s.vsepc;
  sepc = if s.v then s.sepc else legal_epc val;
}

unfoldable pub set_stvec : State → ℕ → State
set_stvec s val = record s {
  vstvec = if s.v then bit_and val (not64 2) else s.vstvec;
  stvec = if s.v then s.stvec else bit_and val (not64 2);
}

unfoldable pub set_sscratch : State → ℕ → State
set_sscratch s val = record s {
  vsscratch = if s.v then val else s.vsscratch;
  sscratch = if s.v then s.sscratch else val;
}

unfoldable pub set_scause : State → ℕ → State
set_scause s val = record s {
  vscause = if s.v then val else s.vscause;
  scause = if s.v then s.scause else write_under (2 ^ 63 + 31) s.scause val;
}

unfoldable pub set_stval : State → ℕ → State
set_stval s val = record s {
  vstval = if s.v then val else s.vstval;
  stval = if s.v then s.stval else val;
}

unfoldable pub set_mepc : State → ℕ → State
set_mepc s val = record s { mepc = legal_epc val }

unfoldable pub set_mtvec : State → ℕ → State
set_mtvec s val = record s { mtvec = bit_and val (not64 2) }

unfoldable pub set_mscratch : State → ℕ → State
set_mscratch s val = record s { mscratch = val }

-- The cases of causes that follow the mask's semicolon in the source have no effect.
unfoldable pub set_mcause : State → ℕ → State
set_mcause s val = record s { mcause = write_under (2 ^ 63 + 15) s.mcause val }

unfoldable pub set_mtval : State → ℕ → State
set_mtval s val = record s { mtval = val }

unfoldable pub set_mtval2 : State → ℕ → Outcome State
set_mtval2 s val =
    if supports s letter_h then ok (record s { mtval2 = val }) else threw (illegal_instruction 0)

unfoldable pub set_mtinst : State → ℕ → Outcome State
set_mtinst s val =
    if supports s letter_h then ok (record s { mtinst = val }) else threw (illegal_instruction 0)

-- M, A, F, D, C and H.
abbrev pub misa_mask : ℕ
misa_mask = or_of (2 ^ 12 ∷ 2 ^ 0 ∷ 2 ^ 5 ∷ 2 ^ 3 ∷ 2 ^ 2 ∷ 2 ^ 7 ∷ [])

-- Without F there is no D.
abbrev pub without_d : ℕ → ℕ
without_d val = if bit_and val (2 ^ 5) == 0 then bit_and val (not64 (2 ^ 3)) else val

unfoldable pub set_misa : Config → State → ℕ → State
set_misa c s val =
    let ignored = bit_and val (2 ^ 2) == 0 && not (bit_and s.pc 2 == 0) in
    let misa' = write_under (bit_and misa_mask c.max_isa) s.misa (without_d val) in
    let has_h = supports (record s { misa = misa' }) letter_h in
    record s {
      misa = if ignored then s.misa else misa';
      mideleg =
          if ignored
          then s.mideleg
          else if has_h
          then bit_or s.mideleg mip_hs_mask
          else bit_and s.mideleg (not64 mip_hs_mask);
    }
