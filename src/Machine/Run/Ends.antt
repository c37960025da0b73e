-- ===== src/Machine/Run/Ends.antt =====
-- The loops of `processor_t::step` of riscv/execute.cc end.
use processorfuzz.Base.{◌+◌, ◌*◌, ℕ, ◌≤◌, ◌<◌, ◌≡◌, ◌≢◌}
use processorfuzz.Processor.State.{Config}
use processorfuzz.Machine.Hart.{Machine, Simif}
use processorfuzz.Machine.Run.{Interrupts, goes_on, out_of_fuel, Ran}
use processorfuzz.Machine.Run.Rank.{rank}

-- A run of `left` rounds at most from a rank: it does not run out of fuel, and if it goes on, it
-- retired an instruction or lowered the rank.
record Ends {Io : Type 0} (left from : ℕ) (r : Ran Io) : Type 0 where
  fuel_left : r.end ≢ out_of_fuel
  retired : r.instret ≤ left
  advanced : r.end ≡ goes_on → 0 < left → rank r.machine < from + 3 * r.instret

module _ {Io : Type 0} (c : Config) (sim : Simif Io) (intrs : Interrupts) where
  -- The outer loop does not run out of fuel.
  abbrev Enough : Ran Io → Type 0
  Enough r = r.end ≢ out_of_fuel
