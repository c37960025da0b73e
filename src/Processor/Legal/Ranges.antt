-- ===== src/Processor/Legal/Ranges.antt =====
-- Writes keep the small registers in range.
use processorfuzz.Base.{ℕ, ◌<◌, arith}
use processorfuzz.Base.{Bool, ltb, if◌then◌else◌}
use processorfuzz.Base.Digits.{bit_and-le}
use processorfuzz.Processor.Number.{
  Csr, csr_vstval, csr_mtval2, csr_mtinst, csr_htimedelta, csr_htimedeltah, csr_tselect, csr_fflags,
  csr_frm, csr_fcsr, csr_minstret, csr_mcycle, csr_minstreth, csr_mcycleh, csr_mcounteren,
  csr_scounteren,
}
use processorfuzz.Processor.State.{
  State, Config, ok, threw, Ensures, Ensures-if, supports, letter_h, num_triggers,
}
use processorfuzz.Processor.Registers.{illegal_instruction}
use processorfuzz.Processor.Write.{write_csr}
use processorfuzz.Processor.Legal.{RangesLegal}

chosen :
    (val old : ℕ) → old < num_triggers → (if ltb val num_triggers then val else old) < num_triggers
chosen val old h = ground arith

module _ (c : Config) (s : State) (v : RangesLegal s) where
  kept-if :
      (b : Bool) (s' : State)
      → RangesLegal s'
      → Ensures RangesLegal (if b then ok s' else threw (illegal_instruction 0))
  kept-if b s' k = Ensures-if RangesLegal b s' (illegal_instruction 0) k

  pub write_csr-RangesLegal : (r : Csr) (val : ℕ) → Ensures RangesLegal (write_csr c s r val)
  unfolding write_csr
  write_csr-RangesLegal csr_tselect val = record {
    trigger = chosen val s.tselect v.trigger;
    flags = v.flags;
    rounding = v.rounding;
    count = v.count;
    machine_counters = v.machine_counters;
    supervisor_counters = v.supervisor_counters;
  }
  write_csr-RangesLegal csr_fflags val = record {
    trigger = v.trigger;
    flags = omega (arith, bit_and-le val 0x1f);
    rounding = v.rounding;
    count = v.count;
    machine_counters = v.machine_counters;
    supervisor_counters = v.supervisor_counters;
  }
  write_csr-RangesLegal csr_frm val = record {
    trigger = v.trigger;
    flags = v.flags;
    rounding = omega (arith, bit_and-le val 0x7);
    count = v.count;
    machine_counters = v.machine_counters;
    supervisor_counters = v.supervisor_counters;
  }
  write_csr-RangesLegal csr_fcsr val = record {
    trigger = v.trigger;
    flags = omega (arith, bit_and-le val 0x1f);
    rounding = omega (arith, bit_and-le val 0xe0);
    count = v.count;
    machine_counters = v.machine_counters;
    supervisor_counters = v.supervisor_counters;
  }
  write_csr-RangesLegal csr_minstret val = record {
    trigger = v.trigger;
    flags = v.flags;
    rounding = v.rounding;
    count = omega arith;
    machine_counters = v.machine_counters;
    supervisor_counters = v.supervisor_counters;
  }
  write_csr-RangesLegal csr_mcycle val = record {
    trigger = v.trigger;
    flags = v.flags;
    rounding = v.rounding;
    count = omega arith;
    machine_counters = v.machine_counters;
    supervisor_counters = v.supervisor_counters;
  }
  write_csr-RangesLegal csr_minstreth val = record {
    trigger = v.trigger;
    flags = v.flags;
    rounding = v.rounding;
    count = omega arith;
    machine_counters = v.machine_counters;
    supervisor_counters = v.supervisor_counters;
  }
  write_csr-RangesLegal csr_mcycleh val = record {
    trigger = v.trigger;
    flags = v.flags;
    rounding = v.rounding;
    count = omega arith;
    machine_counters = v.machine_counters;
    supervisor_counters = v.supervisor_counters;
  }
  write_csr-RangesLegal csr_mcounteren val = record {
    trigger = v.trigger;
    flags = v.flags;
    rounding = v.rounding;
    count = v.count;
    machine_counters = omega arith;
    supervisor_counters = v.supervisor_counters;
  }
  write_csr-RangesLegal csr_scounteren val = record {
    trigger = v.trigger;
    flags = v.flags;
    rounding = v.rounding;
    count = v.count;
    machine_counters = v.machine_counters;
    supervisor_counters = omega arith;
  }
  write_csr-RangesLegal csr_mtval2 val = kept-if (supports s letter_h) _ v
  write_csr-RangesLegal csr_mtinst val = kept-if (supports s letter_h) _ v
  write_csr-RangesLegal csr_htimedelta val = tt
  write_csr-RangesLegal csr_htimedeltah val = tt
  write_csr-RangesLegal csr_vstval val = v
  write_csr-RangesLegal _ val = v
