-- ===== src/Jtag/Reset.antt =====
-- The way of the TAP controller of riscv/jtag_dtm.cc to its reset state.
use processorfuzz.Base.{
  List, [], ◌∷◌, length, ℕ, ◌+◌, ◌-◌, ◌≤◌, arith, Bool, true, false, Option, none, some, ◌≡◌, refl,
  ap,
}
use processorfuzz.Processor.State.{get_field}
use processorfuzz.Jtag.{
  dmi_address, JtagState, test_logic_reset, run_test_idle, select_dr_scan, capture_dr, shift_dr,
  exit1_dr, pause_dr, exit2_dr, update_dr, select_ir_scan, capture_ir, shift_ir, exit1_ir, pause_ir,
  exit2_ir, update_ir, DebugModule, JtagDtm, next_state, shift, captured, read_answer, access,
  with_status, controlled, updated, reset_dtm, enter, positive_edge, set_pins, clock, ir_idcode,
}

-- The cycles with TMS high from a state to the reset.
abbrev distance : JtagState → ℕ
distance test_logic_reset = 0
distance select_ir_scan = 1
distance select_dr_scan = 2
distance run_test_idle = 3
distance update_dr = 3
distance update_ir = 3
distance exit1_dr = 4
distance exit2_dr = 4
distance exit1_ir = 4
distance exit2_ir = 4
distance capture_dr = 5
distance shift_dr = 5
distance pause_dr = 5
distance capture_ir = 5
distance shift_ir = 5
distance pause_ir = 5

distance_max : (s : JtagState) → distance s ≤ 5
distance_max s = ground arith

next-distance : (s : JtagState) → distance (next_state s true) ≤ distance s - 1
unfolding next_state
next-distance s = ground arith

next-reset : (s : JtagState) → distance s ≤ 1 → next_state s true ≡ test_logic_reset
unfolding next_state
next-reset s h = ground arith

module _ {Dm : Type 0} (m : DebugModule Dm) where
  captured-state : (j : JtagDtm Dm) → (captured j).state ≡ j.state
  unfolding captured
  captured-state j = ground arith

  shift-state : (s : JtagState) (j : JtagDtm Dm) → (shift s j).state ≡ j.state
  unfolding shift
  shift-state test_logic_reset j = refl
  shift-state run_test_idle j = refl
  shift-state select_dr_scan j = refl
  shift-state capture_dr j = refl
  shift-state shift_dr j = refl
  shift-state exit1_dr j = refl
  shift-state pause_dr j = refl
  shift-state exit2_dr j = refl
  shift-state update_dr j = refl
  shift-state select_ir_scan j = refl
  shift-state capture_ir j = refl
  shift-state shift_ir j = refl
  shift-state exit1_ir j = refl
  shift-state pause_ir j = refl
  shift-state exit2_ir j = refl
  shift-state update_ir j = refl

  read_answer-state : (r : Option ℕ × Dm) (j : JtagDtm Dm) → (read_answer r j).1.state ≡ j.state
  unfolding read_answer
  read_answer-state (some value, dm) j = refl
  read_answer-state (none, dm) j = refl

  access-state : (j : JtagDtm Dm) → (access m j).1.state ≡ j.state
  unfolding access
  access-state j =
      ground (arith, read_answer-state (m.dmi_read j.dm (get_field j.dr dmi_address)) j)

  controlled-distance : (j : JtagDtm Dm) → distance (controlled j).state ≤ distance j.state
  unfolding controlled reset_dtm
  controlled-distance j = ground arith

  updated-distance : (j : JtagDtm Dm) → distance (updated m j).state ≤ distance j.state
  unfolding updated with_status
  updated-distance j =
      ground (arith, controlled-distance j, ap distance (access-state (record j { dmi = j.dr })))

  enter-distance :
      (s : JtagState) (j : JtagDtm Dm)
      → distance (enter m s (record j { state = s })).state ≤ distance s
  unfolding enter
  enter-distance test_logic_reset j = omega arith
  enter-distance run_test_idle j = omega arith
  enter-distance select_dr_scan j = omega arith
  enter-distance capture_dr j = rw (captured-state (record j { state = capture_dr })) (omega arith)
  enter-distance shift_dr j = omega arith
  enter-distance exit1_dr j = omega arith
  enter-distance pause_dr j = omega arith
  enter-distance exit2_dr j = omega arith
  enter-distance update_dr j = updated-distance (record j { state = update_dr })
  enter-distance select_ir_scan j = omega arith
  enter-distance capture_ir j = omega arith
  enter-distance shift_ir j = omega arith
  enter-distance exit1_ir j = omega arith
  enter-distance pause_ir j = omega arith
  enter-distance exit2_ir j = omega arith
  enter-distance update_ir j = omega arith

  -- A cycle is the positive edge that reads its pins.
  pub clock_lem :
      (tms tdi : Bool) (j : JtagDtm Dm)
      → clock m tms tdi j
        ≡ record (positive_edge m (record j { tck = false; tms = tms; tdi = tdi })) {
          tck = true;
          tms = tms;
          tdi = tdi;
        }
  unfolding clock set_pins
  clock_lem tms tdi j = ground arith

  clock-distance :
      (tdi : Bool) (j : JtagDtm Dm) → distance (clock m true tdi j).state ≤ distance j.state - 1
  unfolding positive_edge
  clock-distance tdi j =
      let low = record j { tck = false; tms = true; tdi = tdi } in
      rw (clock_lem true tdi j) (
        omega (
          arith,
          enter-distance (next_state j.state true) (shift j.state low),
          next-distance j.state,
        ))

  -- The instruction register selects the identification code.
  pub record IsReset (j : JtagDtm Dm) : Type 0 where
    pub at_reset : j.state ≡ test_logic_reset
    pub selected : j.ir ≡ ir_idcode

  clock-IsReset :
      (tdi : Bool) (j : JtagDtm Dm) → distance j.state ≤ 1 → IsReset (clock m true tdi j)
  unfolding positive_edge enter
  clock-IsReset tdi j h =
      let e : next_state j.state true ≡ test_logic_reset = next-reset j.state h in
      rw (clock_lem true tdi j, e) (record { at_reset = refl; selected = refl })

  -- Cycles with TMS high, one for each value of TDI.
  unfoldable pub held : List Bool → JtagDtm Dm → JtagDtm Dm
  held [] j = j
  held (tdi ∷ rest) j = held rest (clock m true tdi j)

  held_upto :
      (first : Bool) (rest : List Bool) (j : JtagDtm Dm)
      → distance j.state ≤ 1 + length rest
      → IsReset (held (first ∷ rest) j)
  unfolding held
  held_upto first [] j h = clock-IsReset first j h
  held_upto first (tdi ∷ rest) j h =
      held_upto tdi rest (clock m true first j) (omega (arith, h, clock-distance first j))

  -- Five cycles with TMS high or more, from any state, with any registers and any module behind the
  -- port, end in Test-Logic-Reset with the identification code selected.
  pub held-IsReset : (tdis : List Bool) (j : JtagDtm Dm) → 5 ≤ length tdis → IsReset (held tdis j)
  held-IsReset [] j h = absurd (omega (arith, h))
  held-IsReset (first ∷ rest) j h = held_upto first rest j (omega (arith, h, distance_max j.state))
