-- ===== src/Processor/Legal.antt =====
-- The legal values of the registers of riscv/processor.cc, which every write of `set_csr` keeps.
-- Each predicate is about the registers that it names, so that a write of another register keeps it.
pub mod Traps
pub mod Delegation
pub mod Ranges
pub mod Regions
pub mod Fields
pub mod Status
pub mod Writes
pub mod Reset
pub mod Steps
pub mod Run
use processorfuzz.Base.{ℕ, ◌^◌, ◌<◌, ◌≡◌, ◌⊎◌, Bool, true, false}
use processorfuzz.Base.Digits.{test}
use processorfuzz.Processor.State.{State, num_triggers}
use processorfuzz.Processor.Status.{is_dirty}
use processorfuzz.Processor.Interrupts.{medeleg_mask}

-- The trap vectors are direct or vectored, and return addresses are even.
pub record LegalTraps (mtvec stvec vstvec mepc sepc vsepc dpc : ℕ) : Type 0 where
  pub machine_vector : test 1 mtvec ≡ 0
  pub supervisor_vector : test 1 stvec ≡ 0
  pub guest_vector : test 1 vstvec ≡ 0
  pub machine_pc : test 0 mepc ≡ 0
  pub supervisor_pc : test 0 sepc ≡ 0
  pub guest_pc : test 0 vsepc ≡ 0
  pub debug_pc : test 0 dpc ≡ 0

abbrev pub TrapsLegal : State → Type 0
TrapsLegal s = LegalTraps s.mtvec s.stvec s.vstvec s.mepc s.sepc s.vsepc s.dpc

-- Only exceptions of the mask are delegated, and no interrupt of the machine.
pub record LegalDelegation (medeleg mideleg : ℕ) : Type 0 where
  pub exceptions : (k : ℕ) → test k medeleg_mask ≡ 0 → test k medeleg ≡ 0
  pub software : test 3 mideleg ≡ 0
  pub timer : test 7 mideleg ≡ 0
  pub external : test 11 mideleg ≡ 0

abbrev pub DelegationLegal : State → Type 0
DelegationLegal s = LegalDelegation s.medeleg s.mideleg

-- A PMP entry with W has R, and the addresses fit the physical ones.
pub record LegalPmp (pmpcfg pmpaddr : ℕ → ℕ) : Type 0 where
  pub write_needs_read : (i : ℕ) → test 1 (pmpcfg i) ≡ 1 → test 0 (pmpcfg i) ≡ 1
  pub in_memory : (i : ℕ) → pmpaddr i < 2 ^ 30

abbrev pub PmpLegal : State → Type 0
PmpLegal s = LegalPmp s.pmpcfg s.pmpaddr

-- Small registers are in range.
pub record LegalRanges (tselect fflags frm minstret mcounteren scounteren : ℕ) : Type 0 where
  pub trigger : tselect < num_triggers
  pub flags : fflags < 2 ^ 5
  pub rounding : frm < 2 ^ 3
  pub count : minstret < 2 ^ 64
  pub machine_counters : mcounteren < 2 ^ 32
  pub supervisor_counters : scounteren < 2 ^ 32

abbrev pub RangesLegal : State → Type 0
RangesLegal s = LegalRanges s.tselect s.fflags s.frm s.minstret s.mcounteren s.scounteren

-- FS is off or dirty, as on Rocket, and SD is set where FS, XS or VS is dirty.
pub record LegalStatus (mstatus : ℕ) : Type 0 where
  pub fs : test 13 mstatus ≡ test 14 mstatus
  pub sd : is_dirty mstatus ≡ true → test 63 mstatus ≡ 1

abbrev pub StatusLegal : State → Type 0
StatusLegal s = LegalStatus s.mstatus

-- The program counter is even, and the registers that name or guard addresses are legal.
pub record IsLegal (s : State) : Type 0 where
  pub even_pc : test 0 s.pc ≡ 0
  pub traps : TrapsLegal s
  pub delegation : DelegationLegal s
  pub pmp : PmpLegal s
  pub ranges : RangesLegal s
