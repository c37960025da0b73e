-- ===== src/Processor/State.antt =====
-- The architectural state of a hart: `state_t`, `dcsr_t` and `mcontrol_t` of riscv/processor.h, and
-- what a trap carries, riscv/trap.h. A register is a number below 2 ^ 64. The integer, floating-point
-- and vector register files and the commit log are left out; `single_step` and `serialized` are with
-- the loop that uses them, in Machine/Hart.
use processorfuzz.Base.{
  ℕ, ◌/◌, ◌-◌, ◌*◌, ◌%◌, ◌^◌, bit_and, bit_or, Bool, true, false, ◌==◌, if◌then◌else◌,
}

pub record Dcsr : Type 0 where
  pub prv : ℕ
  pub step : Bool
  pub ebreakm : Bool
  pub ebreakh : Bool
  pub ebreaks : Bool
  pub ebreaku : Bool
  pub halt : Bool
  pub cause : ℕ

pub record Mcontrol : Type 0 where
  pub type : ℕ
  pub dmode : Bool
  pub maskmax : ℕ
  pub select : Bool
  pub timing : Bool
  pub action : ℕ
  pub chain : Bool
  pub match : ℕ
  pub m : Bool
  pub h : Bool
  pub s : Bool
  pub u : Bool
  pub execute : Bool
  pub store : Bool
  pub load : Bool

-- `vxsat`, `vxrm`, `vstart`, `vl` and `vtype` are the registers of the vector unit.
pub record State : Type 0 where
  pub pc : ℕ
  pub prv : ℕ
  pub v : Bool
  pub misa : ℕ
  pub mstatus : ℕ
  pub mepc : ℕ
  pub mtval : ℕ
  pub mscratch : ℕ
  pub mtvec : ℕ
  pub mcause : ℕ
  pub minstret : ℕ
  pub mie : ℕ
  pub mip : ℕ
  pub medeleg : ℕ
  pub mideleg : ℕ
  pub mcounteren : ℕ
  pub scounteren : ℕ
  pub sepc : ℕ
  pub stval : ℕ
  pub sscratch : ℕ
  pub stvec : ℕ
  pub satp : ℕ
  pub scause : ℕ
  pub mtval2 : ℕ
  pub mtinst : ℕ
  pub hstatus : ℕ
  pub hideleg : ℕ
  pub hedeleg : ℕ
  pub hcounteren : ℕ
  pub htval : ℕ
  pub htinst : ℕ
  pub hgatp : ℕ
  pub vsstatus : ℕ
  pub vstvec : ℕ
  pub vsscratch : ℕ
  pub vsepc : ℕ
  pub vscause : ℕ
  pub vstval : ℕ
  pub vsatp : ℕ
  pub dpc : ℕ
  pub dscratch0 : ℕ
  pub dscratch1 : ℕ
  pub dcsr : Dcsr
  pub tselect : ℕ
  pub mcontrol : ℕ → Mcontrol
  pub tdata2 : ℕ → ℕ
  pub debug_mode : Bool
  pub pmpcfg : ℕ → ℕ
  pub pmpaddr : ℕ → ℕ
  pub fflags : ℕ
  pub frm : ℕ
  pub vxsat : ℕ
  pub vxrm : ℕ
  pub vstart : ℕ
  pub vl : ℕ
  pub vtype : ℕ

-- What is fixed when the simulator starts: the ISA string, whether a coprocessor extension is
-- registered, the number and the granularity of the PMP regions, the hart's number, VLEN in bits.
pub record Config : Type 0 where
  pub max_isa : ℕ
  pub has_coprocessor : Bool
  pub n_pmp : ℕ
  pub lg_pmp_granularity : ℕ
  pub hart_id : ℕ
  pub vlen : ℕ

-- `trap_t`: the cause, and the values that `get_tval`, `get_tval2`, `get_tinst` and `has_gva` give.
pub record Trap : Type 0 where
  pub cause : ℕ
  pub tval : ℕ
  pub tval2 : ℕ
  pub tinst : ℕ
  pub gva : Bool

-- A call returns, throws a trap, or aborts the simulator.
pub data Outcome (A : Type 0) : Type 0 where
  ok : A → Outcome A
  threw : Trap → Outcome A
  aborted : Outcome A

-- What holds of the result, if the call returns.
abbrev pub Ensures : {A : Type 0} → (A → Type 0) → Outcome A → Type 0
Ensures P (ok a) = P a
Ensures P (threw t) = Unit
Ensures P aborted = Unit

pub Ensures-if :
    {A : Type 0} (P : A → Type 0) (b : Bool) (a : A) (t : Trap)
    → P a
    → Ensures P (if b then ok a else threw t)
Ensures-if P true a t p = p
Ensures-if P false a t p = tt

abbrev pub max_pmp : ℕ
max_pmp = 16

abbrev pub num_triggers : ℕ
num_triggers = 4

abbrev pub prv_u : ℕ
prv_u = 0

abbrev pub prv_s : ℕ
prv_s = 1

abbrev pub prv_hs : ℕ
prv_hs = 2

abbrev pub prv_m : ℕ
prv_m = 3

-- `supports_extension` of a letter, by its place in the alphabet.
unfoldable pub supports : State → ℕ → Bool
supports s letter = s.misa / 2 ^ letter % 2 == 1

abbrev pub letter_c : ℕ
letter_c = 2

abbrev pub letter_f : ℕ
letter_f = 5

abbrev pub letter_h : ℕ
letter_h = 7

abbrev pub letter_s : ℕ
letter_s = 18

abbrev pub letter_u : ℕ
letter_u = 20

abbrev pub letter_v : ℕ
letter_v = 21

-- `~mask` on 64 bits.
abbrev pub not64 : ℕ → ℕ
not64 mask = 0xffff_ffff_ffff_ffff - mask

-- `(mask) & ~((mask) << 1)`, the lowest bit of a mask of adjacent bits.
abbrev pub low_bit : ℕ → ℕ
low_bit mask = bit_and mask (not64 (mask * 2 % 2 ^ 64))

unfoldable pub get_field : ℕ → ℕ → ℕ
get_field reg mask = bit_and reg mask / low_bit mask

unfoldable pub set_field : ℕ → ℕ → ℕ → ℕ
set_field reg mask val =
    bit_or (bit_and reg (not64 mask)) (bit_and (val * low_bit mask % 2 ^ 64) mask)
