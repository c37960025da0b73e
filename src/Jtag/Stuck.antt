-- ===== src/Jtag/Stuck.antt =====
-- What the port of riscv/jtag_dtm.cc does of the debug module while it is stuck.
use processorfuzz.Base.{ℕ, Bool, true, false, arith, ◌≡◌, ◌≢◌, refl, ◌⊎◌, inl, inr, ◌∙◌}
use processorfuzz.Jtag.{
  JtagState, test_logic_reset, run_test_idle, select_dr_scan, capture_dr, shift_dr, exit1_dr,
  pause_dr, exit2_dr, update_dr, select_ir_scan, capture_ir, shift_ir, exit1_ir, pause_ir, exit2_ir,
  update_ir, DebugModule, JtagDtm, next_state, shift, captured, updated, enter, positive_edge,
  clock, ir_dtmcontrol, ir_dbus,
}
use processorfuzz.Jtag.Reset.{clock_lem}

-- The port is stuck still, holds the same answer, and let the module at most idle.
pub record IsStuck {Dm : Type 0} (m : DebugModule Dm) (dm : Dm) (dmi : ℕ) (after : JtagDtm Dm)
    : Type 0 where
  pub stuck : after.busy_stuck ≡ true
  pub same_dmi : after.dmi ≡ dmi
  pub only_idles : (after.dm ≡ dm) ⊎ (after.dm ≡ m.run_test_idle dm)

module _ {Dm : Type 0} (m : DebugModule Dm) where
  captured-IsStuck : (j : JtagDtm Dm) → j.busy_stuck ≡ true → IsStuck m j.dm j.dmi (captured j)
  unfolding captured
  captured-IsStuck j h = record {
    stuck = ground arith;
    same_dmi = ground arith;
    only_idles = ground arith;
  }

  updated-IsStuck :
      (j : JtagDtm Dm)
      → j.busy_stuck ≡ true
      → j.ir ≢ ir_dtmcontrol
      → IsStuck m j.dm j.dmi (updated m j)
  unfolding updated
  updated-IsStuck j h n = record {
    stuck = ground arith;
    same_dmi = ground arith;
    only_idles = ground arith;
  }

  enter-IsStuck :
      (s : JtagState) (j : JtagDtm Dm)
      → j.busy_stuck ≡ true
      → j.ir ≢ ir_dtmcontrol
      → IsStuck m j.dm j.dmi (enter m s j)
  unfolding enter
  enter-IsStuck test_logic_reset j h n = record {
    stuck = h;
    same_dmi = refl;
    only_idles = inl refl;
  }
  enter-IsStuck run_test_idle j h n = record { stuck = h; same_dmi = refl; only_idles = inr refl }
  enter-IsStuck select_dr_scan j h n = record { stuck = h; same_dmi = refl; only_idles = inl refl }
  enter-IsStuck capture_dr j h n = captured-IsStuck j h
  enter-IsStuck shift_dr j h n = record { stuck = h; same_dmi = refl; only_idles = inl refl }
  enter-IsStuck exit1_dr j h n = record { stuck = h; same_dmi = refl; only_idles = inl refl }
  enter-IsStuck pause_dr j h n = record { stuck = h; same_dmi = refl; only_idles = inl refl }
  enter-IsStuck exit2_dr j h n = record { stuck = h; same_dmi = refl; only_idles = inl refl }
  enter-IsStuck update_dr j h n = updated-IsStuck j h n
  enter-IsStuck select_ir_scan j h n = record { stuck = h; same_dmi = refl; only_idles = inl refl }
  enter-IsStuck capture_ir j h n = record { stuck = h; same_dmi = refl; only_idles = inl refl }
  enter-IsStuck shift_ir j h n = record { stuck = h; same_dmi = refl; only_idles = inl refl }
  enter-IsStuck exit1_ir j h n = record { stuck = h; same_dmi = refl; only_idles = inl refl }
  enter-IsStuck pause_ir j h n = record { stuck = h; same_dmi = refl; only_idles = inl refl }
  enter-IsStuck exit2_ir j h n = record { stuck = h; same_dmi = refl; only_idles = inl refl }
  enter-IsStuck update_ir j h n = record { stuck = h; same_dmi = refl; only_idles = inl refl }

  shift_ir-IsStuck :
      (tms : Bool) (j : JtagDtm Dm)
      → j.busy_stuck ≡ true
      → IsStuck m j.dm j.dmi (enter m (next_state shift_ir tms) j)
  unfolding next_state enter
  shift_ir-IsStuck true j h = record { stuck = h; same_dmi = refl; only_idles = inl refl }
  shift_ir-IsStuck false j h = record { stuck = h; same_dmi = refl; only_idles = inl refl }

  edge-IsStuck :
      (s : JtagState) (tms : Bool) (j : JtagDtm Dm)
      → j.busy_stuck ≡ true
      → j.ir ≢ ir_dtmcontrol
      → IsStuck m j.dm j.dmi
          (enter m (next_state s tms) (record (shift s j) { state = next_state s tms }))
  unfolding shift
  edge-IsStuck test_logic_reset tms j h n = enter-IsStuck (next_state test_logic_reset tms) _ h n
  edge-IsStuck run_test_idle tms j h n = enter-IsStuck (next_state run_test_idle tms) _ h n
  edge-IsStuck select_dr_scan tms j h n = enter-IsStuck (next_state select_dr_scan tms) _ h n
  edge-IsStuck capture_dr tms j h n = enter-IsStuck (next_state capture_dr tms) _ h n
  edge-IsStuck shift_dr tms j h n = enter-IsStuck (next_state shift_dr tms) _ h n
  edge-IsStuck exit1_dr tms j h n = enter-IsStuck (next_state exit1_dr tms) _ h n
  edge-IsStuck pause_dr tms j h n = enter-IsStuck (next_state pause_dr tms) _ h n
  edge-IsStuck exit2_dr tms j h n = enter-IsStuck (next_state exit2_dr tms) _ h n
  edge-IsStuck update_dr tms j h n = enter-IsStuck (next_state update_dr tms) _ h n
  edge-IsStuck select_ir_scan tms j h n = enter-IsStuck (next_state select_ir_scan tms) _ h n
  edge-IsStuck capture_ir tms j h n = enter-IsStuck (next_state capture_ir tms) _ h n
  edge-IsStuck shift_ir tms j h n = shift_ir-IsStuck tms _ h
  edge-IsStuck exit1_ir tms j h n = enter-IsStuck (next_state exit1_ir tms) _ h n
  edge-IsStuck pause_ir tms j h n = enter-IsStuck (next_state pause_ir tms) _ h n
  edge-IsStuck exit2_ir tms j h n = enter-IsStuck (next_state exit2_ir tms) _ h n
  edge-IsStuck update_ir tms j h n = enter-IsStuck (next_state update_ir tms) _ h n

  clock-IsStuck :
      (tms tdi : Bool) (j : JtagDtm Dm)
      → j.busy_stuck ≡ true
      → j.ir ≢ ir_dtmcontrol
      → IsStuck m j.dm j.dmi (clock m tms tdi j)
  unfolding positive_edge
  clock-IsStuck tms tdi j h n =
      let k = edge-IsStuck j.state tms (record j { tck = false; tms = tms; tdi = tdi }) h n in
      rw (clock_lem m tms tdi j)
        (record { stuck = k.stuck; same_dmi = k.same_dmi; only_idles = k.only_idles })

  -- Cycles with any pins, none of which starts with `dtmcontrol` selected.
  pub data Cycles (j : JtagDtm Dm) : JtagDtm Dm → Type 0 where
    done : Cycles j j
    cycle :
        (tms tdi : Bool) (k : JtagDtm Dm)
        → Cycles j k
        → k.ir ≢ ir_dtmcontrol
        → Cycles j (clock m tms tdi k)

  -- What a module becomes that only idles.
  pub data Idled (dm : Dm) : Dm → Type 0 where
    none_yet : Idled dm dm
    once_more : (after : Dm) → Idled dm after → Idled dm (m.run_test_idle after)

  module_idles :
      {dm before after : Dm}
      → Idled dm before
      → (after ≡ before) ⊎ (after ≡ m.run_test_idle before)
      → Idled dm after
  module_idles i (inl e) = rw e i
  module_idles i (inr e) = rw e (once_more _ i)

  kept-IsStuck :
      {j k : JtagDtm Dm}
      → j.busy_stuck ≡ true
      → Cycles j k
      → (k.busy_stuck ≡ true) × (k.dmi ≡ j.dmi) × Idled j.dm k.dm
  kept-IsStuck h done = (h, refl, none_yet)
  kept-IsStuck h (cycle tms tdi k r n) =
      let before = kept-IsStuck h r in
      let after = clock-IsStuck tms tdi k before.0 n in
      (after.stuck, after.same_dmi ∙ before.1, module_idles before.2 after.only_idles)

  -- The data register holds the answer of a busy module: status 3, in 40 bits.
  pub record IsBusy (j : JtagDtm Dm) : Type 0 where
    pub status : j.dr ≡ 3
    pub width : j.dr_length ≡ 40
    pub still_stuck : j.busy_stuck ≡ true

  captures-IsBusy :
      (tdi : Bool) (j : JtagDtm Dm)
      → j.busy_stuck ≡ true
      → j.state ≡ select_dr_scan
      → j.ir ≡ ir_dbus
      → IsBusy (clock m false tdi j)
  unfolding positive_edge shift next_state enter captured
  captures-IsBusy tdi j h at dbus =
      rw (clock_lem m false tdi j, at, dbus, h)
        (record { status = ground arith; width = ground arith; still_stuck = ground arith })

  -- A port that is stuck stays so and makes no read and no write of the debug module, through any
  -- cycles that do not start with `dtmcontrol` selected; whenever such cycles have led to the state
  -- Select-DR-Scan with the DBUS register selected, the next capture answers that the module is busy.
  pub Cycles-IsBusy :
      {j k : JtagDtm Dm} (tdi : Bool)
      → j.busy_stuck ≡ true
      → Cycles j k
      → k.state ≡ select_dr_scan
      → k.ir ≡ ir_dbus
      → (k.busy_stuck ≡ true) × (k.dmi ≡ j.dmi) × Idled j.dm k.dm × IsBusy (clock m false tdi k)
  Cycles-IsBusy {k = k} tdi h r at dbus =
      let kept = kept-IsStuck h r in (kept.0, kept.1, kept.2, captures-IsBusy tdi k kept.0 at dbus)
