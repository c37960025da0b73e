-- ===== src/Processor/Legal/Traps.antt =====
-- Writes keep the trap vectors and return addresses legal.
use processorfuzz.Base.{ℕ, ◌-◌, ◌*◌, ◌/◌, ◌%◌, ◌^◌, ◌≡◌, arith, bit_and}
use processorfuzz.Base.{Bool, true, false, if◌then◌else◌}
use processorfuzz.Base.Digits.{test, test-bit_and, test-bit_or}
use processorfuzz.Processor.Number.{
  Csr, csr_vstval, csr_mtval2, csr_mtinst, csr_htimedelta, csr_htimedeltah, csr_mtvec, csr_stvec,
  csr_vstvec, csr_mepc, csr_sepc, csr_vsepc, csr_dpc,
}
use processorfuzz.Processor.State.{
  State, Config, ok, threw, Ensures, Ensures-if, supports, letter_h, not64,
}
use processorfuzz.Processor.Registers.{illegal_instruction, legal_epc}
use processorfuzz.Processor.Write.{write_csr}
use processorfuzz.Processor.Legal.{TrapsLegal}

clears_bit_1 : (val : ℕ) → test 1 (bit_and val (not64 2)) ≡ 0
clears_bit_1 val = omega (arith, test-bit_and 1 val (not64 2))

clears_bit_0 : (val : ℕ) → test 0 (bit_and val (not64 1)) ≡ 0
clears_bit_0 val = omega (arith, test-bit_and 0 val (not64 1))

legal_epc_even : (val : ℕ) → test 0 (legal_epc val) ≡ 0
unfolding legal_epc
legal_epc_even val = omega (
  arith,
  clears_bit_0 val,
  test-bit_and 0 (bit_and val (not64 1)) (2 ^ 40 - 1),
  test-bit_or 0 ((2 ^ 64 - bit_and (val / 2 ^ 39) 1) % 2 ^ 64 * 2 ^ 39 % 2 ^ 64)
      (bit_and (bit_and val (not64 1)) (2 ^ 40 - 1)),
)

either : (b : Bool) (k x y : ℕ) → test k x ≡ 0 → test k y ≡ 0 → test k (if b then x else y) ≡ 0
either true k x y p q = p
either false k x y p q = q

module _ (c : Config) (s : State) (v : TrapsLegal s) where
  kept-if :
      (b : Bool) (s' : State)
      → TrapsLegal s'
      → Ensures TrapsLegal (if b then ok s' else threw (illegal_instruction 0))
  kept-if b s' k = Ensures-if TrapsLegal b s' (illegal_instruction 0) k

  pub write_csr-TrapsLegal : (r : Csr) (val : ℕ) → Ensures TrapsLegal (write_csr c s r val)
  unfolding write_csr
  write_csr-TrapsLegal csr_mtvec val = record {
    machine_vector = clears_bit_1 val;
    supervisor_vector = v.supervisor_vector;
    guest_vector = v.guest_vector;
    machine_pc = v.machine_pc;
    supervisor_pc = v.supervisor_pc;
    guest_pc = v.guest_pc;
    debug_pc = v.debug_pc;
  }
  write_csr-TrapsLegal csr_stvec val = record {
    machine_vector = v.machine_vector;
    supervisor_vector = either s.v 1 s.stvec _ v.supervisor_vector (clears_bit_1 val);
    guest_vector = either s.v 1 _ s.vstvec (clears_bit_1 val) v.guest_vector;
    machine_pc = v.machine_pc;
    supervisor_pc = v.supervisor_pc;
    guest_pc = v.guest_pc;
    debug_pc = v.debug_pc;
  }
  write_csr-TrapsLegal csr_vstvec val = record {
    machine_vector = v.machine_vector;
    supervisor_vector = v.supervisor_vector;
    guest_vector = clears_bit_1 val;
    machine_pc = v.machine_pc;
    supervisor_pc = v.supervisor_pc;
    guest_pc = v.guest_pc;
    debug_pc = v.debug_pc;
  }
  write_csr-TrapsLegal csr_mepc val = record {
    machine_vector = v.machine_vector;
    supervisor_vector = v.supervisor_vector;
    guest_vector = v.guest_vector;
    machine_pc = legal_epc_even val;
    supervisor_pc = v.supervisor_pc;
    guest_pc = v.guest_pc;
    debug_pc = v.debug_pc;
  }
  write_csr-TrapsLegal csr_sepc val = record {
    machine_vector = v.machine_vector;
    supervisor_vector = v.supervisor_vector;
    guest_vector = v.guest_vector;
    machine_pc = v.machine_pc;
    supervisor_pc = either s.v 0 s.sepc _ v.supervisor_pc (legal_epc_even val);
    guest_pc = either s.v 0 _ s.vsepc (clears_bit_0 val) v.guest_pc;
    debug_pc = v.debug_pc;
  }
  write_csr-TrapsLegal csr_vsepc val = record {
    machine_vector = v.machine_vector;
    supervisor_vector = v.supervisor_vector;
    guest_vector = v.guest_vector;
    machine_pc = v.machine_pc;
    supervisor_pc = v.supervisor_pc;
    guest_pc = clears_bit_0 val;
    debug_pc = v.debug_pc;
  }
  write_csr-TrapsLegal csr_dpc val = record {
    machine_vector = v.machine_vector;
    supervisor_vector = v.supervisor_vector;
    guest_vector = v.guest_vector;
    machine_pc = v.machine_pc;
    supervisor_pc = v.supervisor_pc;
    guest_pc = v.guest_pc;
    debug_pc = clears_bit_0 val;
  }
  write_csr-TrapsLegal csr_mtval2 val = kept-if (supports s letter_h) _ v
  write_csr-TrapsLegal csr_mtinst val = kept-if (supports s letter_h) _ v
  write_csr-TrapsLegal csr_htimedelta val = tt
  write_csr-TrapsLegal csr_htimedeltah val = tt
  write_csr-TrapsLegal csr_vstval val = v
  write_csr-TrapsLegal _ val = v
