-- ===== src/Machine/Run.antt =====
-- The loop of riscv/execute.cc, `processor_t::step`, with the interrupts of riscv/psint.cc and
-- `take_pending_interrupt` of riscv/processor.h. The commit log and the histogram are left out.
pub mod Rank
pub mod Asks
pub mod Ends
pub mod Sound
use processorfuzz.Base.{
  ℕ, zero, suc, true, false, not, ◌&&◌, ◌+◌, ◌-◌, ◌*◌, ◌/◌, ◌%◌, ◌^◌, Bool, ◌||◌, ◌==◌,
  if◌then◌else◌, Option, none, some, bit_and, bit_or,
}
use processorfuzz.Processor.State.{State, Config, Outcome, ok, threw, aborted}
use processorfuzz.Processor.Trap.{take_interrupt, take_trap, enter_debug_mode}
use processorfuzz.Machine.Hart.{
  Machine, SingleStep, step_none, step_stepping, step_stepped, Simif, Action, pure, bind, ◌>>=◌,
  with_hart,
}
use processorfuzz.Machine.Access.{load_insn}
use processorfuzz.Machine.Execute.{Next, at, serialize_before, serialize_after, waits, execute_insn}

-- The interrupts that the fuzzer raises at a program counter: `psint_t::intrs`.
abbrev pub Interrupts : Type 0
Interrupts = ℕ → Option ℕ

-- The bits of `mip` of a value: MTIP, MSIP, MEIP and SEIP.
unfoldable pub assert_mip : ℕ → ℕ
assert_mip val =
    val / 2 ^ 2 % 2 * 2 ^ 11 + val / 2 ^ 3 % 2 * 2 ^ 9 + val % 2 * 2 ^ 7 + val / 2 % 2 * 2 ^ 3

-- Why a run of instructions ends: at a serializing instruction, a single step or its last one, at a trap or a wait
-- for interrupts, by `abort`, or as the fuel of the model runs out.
pub data End : Type 0 where
  goes_on ended gave_up out_of_fuel : End

-- The machine, the instructions retired, and why the run ended.
pub record Ran (Io : Type 0) : Type 0 where
  pub machine : Machine Io
  pub instret : ℕ
  pub end : End

-- `halt_request` of riscv/processor.h.
pub data HaltRequest : Type 0 where
  hr_none hr_regular hr_group : HaltRequest

abbrev pub is_stepped : SingleStep → Bool
is_stepped step_stepped = true
is_stepped _ = false

abbrev pub is_stepping : SingleStep → Bool
is_stepping step_none = false
is_stepping _ = true

abbrev pub advance_step : SingleStep → SingleStep
advance_step step_stepping = step_stepped
advance_step t = t

module _ {Io : Type 0} where
  unfoldable pub take_pending_interrupt : Action Io (Unit {0})
  take_pending_interrupt m = (take_interrupt m.hart (bit_and m.hart.mip m.hart.mie), m)

  abbrev pub raised : Option ℕ → Action Io (Unit {0})
  raised none m = (ok tt, m)
  raised (some val) m =
      take_pending_interrupt
        (with_hart m (record m.hart { mip = bit_or m.hart.mip (assert_mip val) }))

  unfoldable pub assert_int : Interrupts → ℕ → Action Io (Unit {0})
  assert_int intrs pc m = raised (intrs pc) m

  abbrev pub at_pc : Machine Io → ℕ → Machine Io
  at_pc m pc = with_hart m (record m.hart { pc = pc })

  abbrev pub retire : ℕ → Machine Io → Machine Io
  retire instret m = with_hart m (record m.hart { minstret = (m.hart.minstret + instret) % 2 ^ 64 })

  abbrev pub one_more : Ran Io → Ran Io
  one_more r = record r { instret = suc r.instret }

  -- The start of `step`.
  unfoldable pub enter_halt : HaltRequest → Machine Io → Machine Io
  enter_halt hr_none m =
      if m.hart.debug_mode
      then m
      else if m.hart.dcsr.halt
      then with_hart m (enter_debug_mode m.hart 5)
      else m
  enter_halt hr_regular m = if m.hart.debug_mode then m else with_hart m (enter_debug_mode m.hart 3)
  enter_halt hr_group m = if m.hart.debug_mode then m else with_hart m (enter_debug_mode m.hart 6)

  -- What the slow path does before an instruction: whether it leaves the loop, after the one
  -- instruction of a single step, and the machine.
  unfoldable pub before_insn : (slow : Bool) → Machine Io → Bool × Machine Io
  before_insn slow m =
      if slow
      then if not m.serialized && is_stepped m.single_step
        then if m.hart.debug_mode
          then (false, record m { single_step = step_none })
          else (true, record m { single_step = step_none; hart = enter_debug_mode m.hart 4 })
        else (false, record m { single_step = advance_step m.single_step })
      else (false, m)

  -- The end of the handler of a trap.
  unfoldable pub after_trap : Machine Io → Machine Io
  after_trap m =
      if is_stepped m.single_step
      then record m { single_step = step_none; hart = enter_debug_mode m.hart 4 }
      else m

  module _ (c : Config) (sim : Simif Io) (intrs : Interrupts) where
    -- One instruction. The slow path raises its interrupt before the fetch, the other after it.
    unfoldable pub instruction : (slow : Bool) → ℕ → Action Io Next
    instruction slow pc =
        let slowly =
          assert_int intrs pc >>= λ u. load_insn c sim pc >>= λ f. execute_insn c sim f.0 f.1 pc in
        let quickly =
          load_insn c sim pc >>= λ f. assert_int intrs pc >>= λ u. execute_insn c sim f.0 f.1 pc in
        if slow then slowly else quickly

    -- A thrown trap is taken at the instruction that threw it.
    abbrev pub trapped : ℕ → Outcome (Unit {0}) × Machine Io → Ran Io
    trapped pc (ok u, m) = record { machine = m; instret = 0; end = ended }
    trapped pc (threw t, m) = record {
      machine = after_trap (with_hart m (take_trap c m.hart t pc));
      instret = 0;
      end = ended;
    }
    trapped pc (aborted, m) = record { machine = m; instret = 0; end = gave_up }

    -- `advance_pc` and the handlers, for the instruction at `pc`.
    abbrev pub after_insn : ℕ → (Machine Io → Ran Io) → Outcome Next × Machine Io → Ran Io
    after_insn pc further (ok (at npc), m) = one_more (further (at_pc m npc))
    after_insn pc further (ok serialize_before, m) = record {
      machine = record m { serialized = true };
      instret = 0;
      end = goes_on;
    }
    after_insn pc further (ok serialize_after, m) = record {
      machine = m;
      instret = 1;
      end = goes_on;
    }
    after_insn pc further (ok waits, m) = record { machine = m; instret = 0; end = ended }
    after_insn pc further (threw t, m) = trapped pc (threw t, m)
    after_insn pc further (aborted, m) = trapped pc (aborted, m)

    abbrev pub unless_stepped : (Machine Io → Ran Io) → Bool × Machine Io → Ran Io
    unless_stepped further (true, m) = record { machine = m; instret = 0; end = goes_on }
    unless_stepped further (false, m) = further m

    -- The inner loops, of which `left` rounds are left.
    unfoldable pub run_inner : (slow : Bool) → (left : ℕ) → Machine Io → Ran Io
    run_inner slow zero m = record { machine = m; instret = 0; end = goes_on }
    run_inner slow (suc left) m =
        unless_stepped
          (λ m1.
            after_insn m1.hart.pc (λ m2. run_inner slow left m2) (instruction slow m1.hart.pc m1))
          (before_insn slow m)

    -- The rounds that an inner loop has left, after it added to `minstret`.
    abbrev pub after_inner : (Machine Io → (instret : ℕ) → Ran Io) → Ran Io → Ran Io
    after_inner further r = elim r.end [
      | goes_on ↦ further (retire r.instret r.machine) r.instret
      | ended ↦ record r { machine = retire r.instret r.machine }
      | gave_up ↦ r
      | out_of_fuel ↦ r
    ]

    abbrev pub after_interrupt : ℕ → Ran Io → Outcome (Unit {0}) × Machine Io → Ran Io
    after_interrupt pc r (ok u, m) = r
    after_interrupt pc r (threw t, m) = trapped pc (threw t, m)
    after_interrupt pc r (aborted, m) = trapped pc (aborted, m)

    unfoldable pub slow_path : (debug : Bool) → Machine Io → Bool
    slow_path debug m = debug || is_stepping m.single_step || m.hart.debug_mode

    -- The outer loop: `debug` is the flag of the simulator.
    unfoldable pub run_outer : (debug : Bool) → (fuel n : ℕ) → Machine Io → Ran Io
    run_outer debug fuel zero m = record { machine = m; instret = 0; end = goes_on }
    run_outer debug zero (suc n) m = record { machine = m; instret = 0; end = out_of_fuel }
    run_outer debug (suc fuel) (suc n) m =
        let r = run_inner (slow_path debug m) (suc n) m in
        after_interrupt m.hart.pc
          (after_inner (λ m' instret. run_outer debug fuel (suc n - instret) m') r)
          (take_pending_interrupt m)

    unfoldable pub step : (debug : Bool) → HaltRequest → (n : ℕ) → Machine Io → Ran Io
    step debug request n m = run_outer debug (3 * n + 2) n (enter_halt request m)
