-- ===== src/Machine/Run/Sound.antt =====
-- What `processor_t::step` of riscv/execute.cc keeps.
use processorfuzz.Base.{
  ℕ, zero, suc, ◌*◌, not, ◌&&◌, ◌+◌, ◌-◌, ◌%◌, ◌^◌, arith, Bool, true, false, Option, none, some,
}
use processorfuzz.Processor.State.{State, Config, Outcome, ok, threw, aborted}
use processorfuzz.Processor.Trap.{enter_debug_mode}
use processorfuzz.Processor.Legal.{IsLegal}
use processorfuzz.Processor.Legal.Steps.{take_trap-IsLegal, enter_debug_mode-IsLegal, at_pc}
use processorfuzz.Machine.Hart.{Machine, step_none, Simif, with_hart}
use processorfuzz.Machine.Access.{load_insn}
use processorfuzz.Machine.Execute.{Next, at, serialize_before, serialize_after, waits}
use processorfuzz.Machine.Run.{
  Interrupts, End, goes_on, ended, gave_up, out_of_fuel, Ran, HaltRequest, hr_none, hr_regular,
  hr_group, take_pending_interrupt, raised, assert_int, retire, enter_halt, instruction, trapped,
  is_stepped, advance_step, before_insn, after_trap, unless_stepped, slow_path, after_insn,
  after_inner, after_interrupt, run_inner, run_outer, step,
}
use processorfuzz.Machine.Sound.{
  IsSound, Keeps, bind-Keeps, hart-IsSound, flags-IsSound, choose, mip-IsLegal, Any, Ensures-Any,
  Keeps-choice,
}
use processorfuzz.Machine.Sound.Words.{IsWord}
use processorfuzz.Machine.Sound.Next.{IsEven, IsNext}
use processorfuzz.Machine.Sound.Access.{load_insn-Keeps}
use processorfuzz.Machine.Sound.Execute.{execute_insn-Keeps}

minstret-IsLegal :
    (s : State) (n : ℕ) → IsLegal s → IsLegal (record s { minstret = (s.minstret + n) % 2 ^ 64 })
minstret-IsLegal s n v = record {
  even_pc = v.even_pc;
  traps = v.traps;
  delegation = v.delegation;
  pmp = v.pmp;
  ranges = record {
    trigger = v.ranges.trigger;
    flags = v.ranges.flags;
    rounding = v.ranges.rounding;
    count = omega arith;
    machine_counters = v.ranges.machine_counters;
    supervisor_counters = v.ranges.supervisor_counters;
  };
}

module _ {Io : Type 0} where
  retire-IsSound : (n : ℕ) (m : Machine Io) → IsSound m → IsSound (retire n m)
  retire-IsSound n m v = hart-IsSound m _ v (minstret-IsLegal m.hart n v.legal)

  debug-IsSound :
      (cause : ℕ) (m : Machine Io)
      → IsSound m
      → IsSound (with_hart m (enter_debug_mode m.hart cause))
  debug-IsSound cause m v = hart-IsSound m _ v (enter_debug_mode-IsLegal m.hart cause v.legal)

  enter_halt-IsSound : (r : HaltRequest) (m : Machine Io) → IsSound m → IsSound (enter_halt r m)
  unfolding enter_halt
  enter_halt-IsSound hr_none m v =
      choose IsSound m.hart.debug_mode _ _ v
        (choose IsSound m.hart.dcsr.halt _ _ (debug-IsSound 5 m v) v)
  enter_halt-IsSound hr_regular m v = choose IsSound m.hart.debug_mode _ _ v (debug-IsSound 3 m v)
  enter_halt-IsSound hr_group m v = choose IsSound m.hart.debug_mode _ _ v (debug-IsSound 6 m v)

  pending-Keeps : (m : Machine Io) → IsSound m → Keeps Any (take_pending_interrupt m)
  unfolding take_pending_interrupt
  pending-Keeps m v = record { kept = v; result = Ensures-Any _ }

  raised-Keeps : (o : Option ℕ) (m : Machine Io) → IsSound m → Keeps Any (raised o m)
  raised-Keeps none m v = record { kept = v; result = tt }
  raised-Keeps (some val) m v = pending-Keeps _ (hart-IsSound m _ v (mip-IsLegal m.hart _ v.legal))

  assert_int-Keeps :
      (intrs : Interrupts) (pc : ℕ) (m : Machine Io) → IsSound m → Keeps Any (assert_int intrs pc m)
  unfolding assert_int
  assert_int-Keeps intrs pc m v = raised-Keeps (intrs pc) m v

  -- The machine after a single step.
  stepped-IsSound :
      (m : Machine Io)
      → IsSound m
      → IsSound (record m { single_step = step_none; hart = enter_debug_mode m.hart 4 })
  stepped-IsSound m v = flags-IsSound _ m.serialized step_none (debug-IsSound 4 m v)

  after_trap-IsSound : (m : Machine Io) → IsSound m → IsSound (after_trap m)
  unfolding after_trap
  after_trap-IsSound m v = choose IsSound (is_stepped m.single_step) _ m (stepped-IsSound m v) v

  before_insn-IsSound : (slow : Bool) (m : Machine Io) → IsSound m → IsSound (before_insn slow m).1
  unfolding before_insn
  before_insn-IsSound slow m v =
      choose After slow _ _
        (choose After (not m.serialized && is_stepped m.single_step) _ _
          (choose After m.hart.debug_mode _ _ (flags-IsSound m m.serialized step_none v)
            (stepped-IsSound m v))
          (flags-IsSound m m.serialized (advance_step m.single_step) v))
        v
    where
      After : Bool × Machine Io → Type 0
      After b = IsSound b.1

  module _ (c : Config) (sim : Simif Io) (intrs : Interrupts) where
    instruction-Keeps :
        (slow : Bool) (pc : ℕ) (m : Machine Io)
        → IsEven pc
        → IsSound m
        → Keeps IsNext (instruction c sim intrs slow pc m)
    unfolding instruction
    instruction-Keeps slow pc m e v =
        Keeps-choice IsNext slow _ _ m
          (bind-Keeps Any IsNext (assert_int intrs pc m) _ (assert_int-Keeps intrs pc m v)
            (λ u m1 a v1.
              bind-Keeps (λ f. IsWord f.1) IsNext (load_insn c sim pc m1) _
                (load_insn-Keeps c sim pc m1 v1)
                (λ f m2 w v2. execute_insn-Keeps c sim f.1 pc m2 w e v2 f.0)))
          (bind-Keeps (λ f. IsWord f.1) IsNext (load_insn c sim pc m) _
            (load_insn-Keeps c sim pc m v)
            (λ f m1 w v1.
              bind-Keeps Any IsNext (assert_int intrs pc m1) _ (assert_int-Keeps intrs pc m1 v1)
                (λ u m2 a v2. execute_insn-Keeps c sim f.1 pc m2 w e v2 f.0)))

    abbrev RanSound : Ran Io → Type 0
    RanSound r = IsSound r.machine

    trapped-IsSound :
        (pc : ℕ) (r : Outcome (Unit {0}) × Machine Io)
        → IsEven pc
        → IsSound r.1
        → RanSound (trapped c sim intrs pc r)
    trapped-IsSound pc (ok u, m) e v = v
    trapped-IsSound pc (threw t, m) e v =
        after_trap-IsSound _ (hart-IsSound m _ v (take_trap-IsLegal c m.hart t pc v.legal e))
    trapped-IsSound pc (aborted, m) e v = v

    after_insn-IsSound :
        (pc : ℕ) (further : Machine Io → Ran Io)
        → ((m : Machine Io) → IsSound m → RanSound (further m))
        → IsEven pc
        → (r : Outcome Next × Machine Io) → Keeps IsNext r
        → RanSound (after_insn c sim intrs pc further r)
    after_insn-IsSound pc further h e (ok (at npc), m) v =
        h _ (hart-IsSound m _ v.kept (at_pc m.hart npc v.result v.kept.legal))
    after_insn-IsSound pc further h e (ok serialize_before, m) v =
        flags-IsSound m true m.single_step v.kept
    after_insn-IsSound pc further h e (ok serialize_after, m) v = v.kept
    after_insn-IsSound pc further h e (ok waits, m) v = v.kept
    after_insn-IsSound pc further h e (threw t, m) v = trapped-IsSound pc (threw t, m) e v.kept
    after_insn-IsSound pc further h e (aborted, m) v = v.kept

    unless_stepped-IsSound :
        (further : Machine Io → Ran Io) (b : Bool × Machine Io)
        → ((m : Machine Io) → IsSound m → RanSound (further m))
        → IsSound b.1
        → RanSound (unless_stepped c sim intrs further b)
    unless_stepped-IsSound further (true, m) h v = v
    unless_stepped-IsSound further (false, m) h v = h m v

    run_inner-IsSound :
        (slow : Bool) (left : ℕ) (m : Machine Io)
        → IsSound m
        → RanSound (run_inner c sim intrs slow left m)
    unfolding run_inner
    run_inner-IsSound slow zero m v = v
    run_inner-IsSound slow (suc left) m v =
        unless_stepped-IsSound _ (before_insn slow m)
          (λ m1 v1.
            after_insn-IsSound m1.hart.pc (λ m2. run_inner c sim intrs slow left m2)
              (λ m2 w. run_inner-IsSound slow left m2 w) v1.legal.even_pc
              (instruction c sim intrs slow m1.hart.pc m1)
              (instruction-Keeps slow m1.hart.pc m1 v1.legal.even_pc v1))
          (before_insn-IsSound slow m v)

    after_interrupt-IsSound :
        (pc : ℕ) (r : Ran Io) (p : Outcome (Unit {0}) × Machine Io)
        → IsEven pc
        → RanSound r
        → IsSound p.1
        → RanSound (after_interrupt c sim intrs pc r p)
    after_interrupt-IsSound pc r (ok u, m) e v w = v
    after_interrupt-IsSound pc r (threw t, m) e v w = trapped-IsSound pc (threw t, m) e w
    after_interrupt-IsSound pc r (aborted, m) e v w = w

    after_inner-IsSound :
        (further : Machine Io → ℕ → Ran Io) (m : Machine Io) (k : ℕ) (end : End)
        → IsSound m
        → ((m' : Machine Io) → IsSound m' → RanSound (further m' k))
        → RanSound
            (after_inner c sim intrs further (record { machine = m; instret = k; end = end }))
    after_inner-IsSound further m k goes_on v h = h _ (retire-IsSound k m v)
    after_inner-IsSound further m k ended v h = retire-IsSound k m v
    after_inner-IsSound further m k gave_up v h = v
    after_inner-IsSound further m k out_of_fuel v h = v

    run_outer-IsSound :
        (debug : Bool) (fuel n : ℕ) (m : Machine Io)
        → IsSound m
        → RanSound (run_outer c sim intrs debug fuel n m)
    unfolding run_outer take_pending_interrupt
    run_outer-IsSound debug fuel zero m v = v
    run_outer-IsSound debug zero (suc n) m v = v
    run_outer-IsSound debug (suc fuel) (suc n) m v =
        let slow = slow_path c sim intrs debug m in
        let r = run_inner c sim intrs slow (suc n) m in
        after_interrupt-IsSound m.hart.pc _ (take_pending_interrupt m) v.legal.even_pc
          (after_inner-IsSound (λ m' k. run_outer c sim intrs debug fuel (suc n - k) m') r.machine
            r.instret r.end (run_inner-IsSound slow (suc n) m v)
            (λ m' w. run_outer-IsSound debug fuel (suc n - r.instret) m' w))
          v

    -- `step` keeps the machine sound, from any sound machine, for any number of instructions, whatever
    -- the memory holds, the devices answer, and the interrupts and the debugger ask for, single steps
    -- among it.
    pub step-IsSound :
        (debug : Bool) (request : HaltRequest) (n : ℕ) (m : Machine Io)
        → IsSound m
        → IsSound (step c sim intrs debug request n m).machine
    unfolding step
    step-IsSound debug request n m v =
        run_outer-IsSound debug (3 * n + 2) n (enter_halt request m)
          (enter_halt-IsSound request m v)
