-- ===== src/Processor/Legal/Writes.antt =====
-- All registers at once: every write of `set_csr` of riscv/processor.cc, and `reset`.
use processorfuzz.Base.{ℕ, ◌%◌, ◌^◌, ◌≡◌, refl, Bool, if◌then◌else◌}
use processorfuzz.Base.Digits.{test}
use processorfuzz.Processor.Number.{
  Csr, csr_of, csr_mtval2, csr_mtinst, csr_htimedelta, csr_htimedeltah, csr_vstval,
}
use processorfuzz.Processor.Registers.{illegal_instruction}
use processorfuzz.Processor.State.{
  State, Config, Trap, Outcome, ok, threw, aborted, Ensures, Ensures-if, supports, letter_h,
}
use processorfuzz.Processor.Write.{write_csr, set_csr}
use processorfuzz.Processor.Legal.{
  IsLegal, TrapsLegal, DelegationLegal, PmpLegal, RangesLegal, StatusLegal,
}
use processorfuzz.Processor.Legal.Traps.{write_csr-TrapsLegal}
use processorfuzz.Processor.Legal.Delegation.{write_csr-DelegationLegal}
use processorfuzz.Processor.Legal.Regions.{write_csr-PmpLegal}
use processorfuzz.Processor.Legal.Ranges.{write_csr-RangesLegal}
use processorfuzz.Processor.Legal.Status.{write_csr-StatusLegal}

-- The program counter is `n`.
abbrev At : ℕ → State → Type 0
At n s = s.pc ≡ n

At-if :
    (n : ℕ) (b : Bool) (s : State) (t : Trap)
    → At n s
    → Ensures (At n) (if b then ok s else threw t)
At-if n b s t h = Ensures-if (At n) b s t h

write_csr-pc :
    (c : Config) (s : State) (r : Csr) (val : ℕ) → Ensures (At s.pc) (write_csr c s r val)
unfolding write_csr
write_csr-pc c s csr_mtval2 val = At-if s.pc (supports s letter_h) _ (illegal_instruction 0) refl
write_csr-pc c s csr_mtinst val = At-if s.pc (supports s letter_h) _ (illegal_instruction 0) refl
write_csr-pc c s csr_htimedelta val = tt
write_csr-pc c s csr_htimedeltah val = tt
write_csr-pc c s csr_vstval val = refl
write_csr-pc c s _ val = refl

gathered :
    (s : State)
    → test 0 s.pc ≡ 0
    → (o : Outcome State) → Ensures (At s.pc) o
    → Ensures TrapsLegal o
    → Ensures DelegationLegal o
    → Ensures PmpLegal o
    → Ensures RangesLegal o
    → Ensures IsLegal o
gathered s e (ok s') n t d p r = record {
  even_pc = rw n e;
  traps = t;
  delegation = d;
  pmp = p;
  ranges = r;
}
gathered s e (threw x) n t d p r = tt
gathered s e aborted n t d p r = tt

module _ (c : Config) (s : State) where
  pub write_csr-IsLegal : IsLegal s → (r : Csr) (val : ℕ) → Ensures IsLegal (write_csr c s r val)
  write_csr-IsLegal v r w =
      gathered s v.even_pc (write_csr c s r w) (write_csr-pc c s r w)
        (write_csr-TrapsLegal c s v.traps r w) (write_csr-DelegationLegal c s v.delegation r w)
        (write_csr-PmpLegal c s v.pmp r w) (write_csr-RangesLegal c s v.ranges r w)

  -- A write of any register, with any value, keeps the registers legal: the trap vectors and return
  -- addresses, the delegation, the PMP entries and the ranges of the small registers.
  pub set_csr-IsLegal : IsLegal s → (which val : ℕ) → Ensures IsLegal (set_csr c s which val)
  unfolding set_csr
  set_csr-IsLegal v which val = write_csr-IsLegal v (csr_of which) (val % 2 ^ 64)

  -- A write of any register, with any value, keeps `mstatus` coherent: FS is off or dirty, and SD is
  -- set where FS, XS or VS says that the state is dirty.
  pub set_csr-StatusLegal :
      StatusLegal s → (which val : ℕ) → Ensures StatusLegal (set_csr c s which val)
  unfolding set_csr
  set_csr-StatusLegal v which val = write_csr-StatusLegal c s v (csr_of which) (val % 2 ^ 64)
