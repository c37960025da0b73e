-- ===== src/Examples/Jtag.antt =====
-- Runs of the port of riscv/jtag_dtm.cc, with a debug module that has one register.
use processorfuzz.Base.{ℕ, Bool, true, false, List, [], ◌∷◌, some, ◌≡◌, refl, arith}
use processorfuzz.Jtag.{
  JtagState, capture_ir, shift_dr, run_test_idle, DebugModule, JtagDtm, set_pins, positive_edge,
  enter, next_state, shift, clock,
}
use processorfuzz.Jtag.Reset.{IsReset, held, held-IsReset}
use processorfuzz.Jtag.Scan.{instruction_register, HasLeft, value, scan_bits, scan-exchanges}
use processorfuzz.Jtag.Stuck.{done, cycle, Idled, IsBusy, Cycles-IsBusy}

-- The module keeps the value written last, and ignores the address.
abbrev cell : DebugModule ℕ
cell = record {
  dmi_read = λ dm address. (some dm, dm);
  dmi_write = λ dm address written. (true, written);
  run_test_idle = λ dm. dm;
}

abbrev port : (ir dr : ℕ) → JtagState → JtagDtm ℕ
port ir dr state = record {
  dm = 7;
  required_rti_cycles = 2;
  tck = true;
  tms = false;
  tdi = false;
  tdo = false;
  ir = ir;
  dr = dr;
  dr_length = 40;
  dtmcontrol = 0x61;
  dmi = 9;
  rti_remaining = 1;
  busy_stuck = true;
  state = state;
}

abbrev five : List Bool
five = true ∷ false ∷ true ∷ true ∷ false ∷ []

held-IsReset_example : IsReset cell (held cell five (port 0x11 5 shift_dr))
held-IsReset_example = held-IsReset cell five (port 0x11 5 shift_dr) (omega arith)

-- The host selects the debug module interface, 0b10001, and sees the 0b00001 that was selected.
abbrev dbus : List Bool
dbus = false ∷ false ∷ false ∷ true ∷ []

abbrev scanned : List Bool × JtagDtm ℕ
scanned = scan_bits cell true dbus (clock cell false false (port 1 5 capture_ir))

scan-exchanges_example : (value scanned.0 ≡ 1) × HasLeft instruction_register 0x11 scanned.1
scan-exchanges_example =
    scan-exchanges cell instruction_register false true dbus (port 1 5 capture_ir) refl
      (omega arith) (omega arith) refl

-- A cycle from Run-Test/Idle to Select-DR-Scan while the port is stuck.
abbrev selecting : JtagDtm ℕ
selecting = clock cell true false (port 0x11 5 run_test_idle)

Cycles-IsBusy_example :
    (selecting.busy_stuck ≡ true)
    × (selecting.dmi ≡ 9)
    × Idled cell 7 selecting.dm
    × IsBusy cell (clock cell false true selecting)
unfolding clock set_pins positive_edge enter next_state shift
Cycles-IsBusy_example =
    Cycles-IsBusy cell {j = port 0x11 5 run_test_idle} {k = selecting} true refl
      (cycle true false (port 0x11 5 run_test_idle) done (λ e. absurd (omega (arith, e)))) refl refl
