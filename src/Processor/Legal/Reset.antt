-- ===== src/Processor/Legal/Reset.antt =====
-- The registers after `reset` of riscv/processor.cc.
use processorfuzz.Base.{◌-◌, ◌^◌, refl, Bool, true, false, if◌then◌else◌, ltb, [], ◌∷◌, arith}
use processorfuzz.Processor.Number.{csr_pmpaddr, csr_pmpcfg}
use processorfuzz.Processor.State.{State, Config, supports, letter_h}
use processorfuzz.Processor.Masks.{mip_hs_mask, or_of, pmp_r, pmp_w, pmp_x, pmp_napot}
use processorfuzz.Processor.Status.{set_mstatus}
use processorfuzz.Processor.Debug.{set_pmpaddr, set_pmpcfg}
use processorfuzz.Processor.Write.{write_csr}
use processorfuzz.Processor.Reset.{reset_state, reset_registers, reset}
use processorfuzz.Processor.Legal.{IsLegal, LegalDelegation}
use processorfuzz.Processor.Legal.Delegation.{zero_bits}
use processorfuzz.Processor.Legal.Writes.{write_csr-IsLegal}

guest_ints : (b : Bool) → LegalDelegation 0 (if b then mip_hs_mask else 0)
guest_ints true = record {
  exceptions = λ k h. zero_bits k;
  software = refl;
  timer = refl;
  external = refl;
}
guest_ints false = record {
  exceptions = λ k h. zero_bits k;
  software = refl;
  timer = refl;
  external = refl;
}

pub legal-if : (b : Bool) (x y : State) → IsLegal x → IsLegal y → IsLegal (if b then x else y)
legal-if true x y p q = p
legal-if false x y p q = q

reset_registers-IsLegal :
    (c : Config) (halt_on_reset : Bool) → IsLegal (reset_registers c halt_on_reset)
unfolding reset_registers reset_state set_mstatus
reset_registers-IsLegal c halt_on_reset = record {
  even_pc = refl;
  traps = record {
    machine_vector = refl;
    supervisor_vector = refl;
    guest_vector = refl;
    machine_pc = refl;
    supervisor_pc = refl;
    guest_pc = refl;
    debug_pc = refl;
  };
  delegation = guest_ints (supports (reset_state c.max_isa) letter_h);
  pmp = record { write_needs_read = λ i w. omega (arith, w); in_memory = λ i. omega arith };
  ranges = omega arith;
}

opened-IsLegal :
    (c : Config) (s : State)
    → IsLegal s
    → IsLegal (
        set_pmpcfg c
          (set_pmpaddr c s 0 (2 ^ 64 - 1))
          0
          (or_of (pmp_r ∷ pmp_w ∷ pmp_x ∷ pmp_napot ∷ [])))
unfolding write_csr
opened-IsLegal c s v =
    let addr = write_csr-IsLegal c s v (csr_pmpaddr 0) (2 ^ 64 - 1) in
    write_csr-IsLegal c (set_pmpaddr c s 0 (2 ^ 64 - 1)) addr (csr_pmpcfg 0)
      (or_of (pmp_r ∷ pmp_w ∷ pmp_x ∷ pmp_napot ∷ []))

-- The registers are legal after a reset.
pub reset-IsLegal : (c : Config) (halt_on_reset : Bool) → IsLegal (reset c halt_on_reset)
unfolding reset
reset-IsLegal c halt_on_reset =
    let v = reset_registers-IsLegal c halt_on_reset in
    legal-if (ltb 0 c.n_pmp) _ _ (opened-IsLegal c _ v) v
