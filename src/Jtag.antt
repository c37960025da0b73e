-- ===== src/Jtag.antt =====
-- The JTAG port of the debug module, riscv/jtag_dtm.h and riscv/jtag_dtm.cc: the TAP controller, its
-- instruction and data registers, and the accesses that it makes of the debug module.
pub mod Reset
pub mod Scan
pub mod Stuck
use processorfuzz.Base.{
  ℕ, ◌+◌, ◌-◌, ◌*◌, ◌/◌, ◌%◌, ◌^◌, bit_and, bit_or, Bool, true, false, not, ◌&&◌, ◌||◌, Option,
  none, some, ltb, ◌==◌, if◌then◌else◌, of_bool,
}
use processorfuzz.Processor.State.{get_field, set_field}

-- `jtag_state_t`.
pub data JtagState : Type 0 where
  test_logic_reset : JtagState
  run_test_idle : JtagState
  select_dr_scan : JtagState
  capture_dr : JtagState
  shift_dr : JtagState
  exit1_dr : JtagState
  pause_dr : JtagState
  exit2_dr : JtagState
  update_dr : JtagState
  select_ir_scan : JtagState
  capture_ir : JtagState
  shift_ir : JtagState
  exit1_ir : JtagState
  pause_ir : JtagState
  exit2_ir : JtagState
  update_ir : JtagState

-- The operations of `debug_module_t` that the port calls, on the module's state: `none` and `false`
-- where they fail.
pub record DebugModule (Dm : Type 0) : Type 0 where
  pub dmi_read : Dm → (address : ℕ) → Option ℕ × Dm
  pub dmi_write : Dm → (address value : ℕ) → Bool × Dm
  pub run_test_idle : Dm → Dm

-- `jtag_dtm_t`, with the state of the debug module that it points to.
pub record JtagDtm (Dm : Type 0) : Type 0 where
  pub dm : Dm
  pub required_rti_cycles : ℕ
  pub tck : Bool
  pub tms : Bool
  pub tdi : Bool
  pub tdo : Bool
  pub ir : ℕ
  pub dr : ℕ
  pub dr_length : ℕ
  pub dtmcontrol : ℕ
  pub dmi : ℕ
  pub rti_remaining : ℕ
  pub busy_stuck : Bool
  pub state : JtagState

abbrev pub idcode : ℕ
idcode = 0xdead_beef

abbrev pub ir_length : ℕ
ir_length = 5

abbrev pub abits : ℕ
abits = 6

abbrev pub ir_idcode : ℕ
ir_idcode = 1

abbrev pub ir_dtmcontrol : ℕ
ir_dtmcontrol = 0x10

abbrev pub ir_dbus : ℕ
ir_dbus = 0x11

abbrev pub dtmcontrol_dmireset : ℕ
dtmcontrol_dmireset = 0x1_0000

abbrev pub dtmcontrol_dmihardreset : ℕ
dtmcontrol_dmihardreset = 0x2_0000

abbrev pub dmi_op : ℕ
dmi_op = 3

abbrev pub dmi_data : ℕ
dmi_data = 0x3_ffff_fffc

abbrev pub dmi_address : ℕ
dmi_address = 2 ^ 40 - 2 ^ 34

abbrev pub dmi_op_status_success : ℕ
dmi_op_status_success = 0

abbrev pub dmi_op_status_failed : ℕ
dmi_op_status_failed = 2

abbrev pub dmi_op_status_busy : ℕ
dmi_op_status_busy = 3

abbrev pub dmi_op_read : ℕ
dmi_op_read = 1

abbrev pub dmi_op_write : ℕ
dmi_op_write = 2

-- The row of `next` for a state, and its column for TMS.
unfoldable pub next_state : JtagState → (tms : Bool) → JtagState
next_state test_logic_reset tms = if tms then test_logic_reset else run_test_idle
next_state run_test_idle tms = if tms then select_dr_scan else run_test_idle
next_state select_dr_scan tms = if tms then select_ir_scan else capture_dr
next_state capture_dr tms = if tms then exit1_dr else shift_dr
next_state shift_dr tms = if tms then exit1_dr else shift_dr
next_state exit1_dr tms = if tms then update_dr else pause_dr
next_state pause_dr tms = if tms then exit2_dr else pause_dr
next_state exit2_dr tms = if tms then update_dr else shift_dr
next_state update_dr tms = if tms then select_dr_scan else run_test_idle
next_state select_ir_scan tms = if tms then test_logic_reset else capture_ir
next_state capture_ir tms = if tms then exit1_ir else shift_ir
next_state shift_ir tms = if tms then exit1_ir else shift_ir
next_state exit1_ir tms = if tms then update_ir else pause_ir
next_state pause_ir tms = if tms then exit2_ir else pause_ir
next_state exit2_ir tms = if tms then update_ir else shift_ir
next_state update_ir tms = if tms then select_dr_scan else run_test_idle

-- A shift of a register to the right, with `_tdi` in its highest bit.
unfoldable pub shifted_in : (length : ℕ) (tdi : Bool) (register : ℕ) → ℕ
shifted_in length tdi register = bit_or (register / 2) (of_bool tdi * 2 ^ (length - 1))

module _ {Dm : Type 0} where
  -- `jtag_dtm_t::reset`.
  unfoldable pub reset_dtm : JtagDtm Dm → JtagDtm Dm
  reset_dtm j = record j {
    state = test_logic_reset;
    busy_stuck = false;
    rti_remaining = 0;
    dmi = 0;
  }

  -- What the switch before the change of state does.
  unfoldable pub shift : JtagState → JtagDtm Dm → JtagDtm Dm
  shift shift_dr j = record j { dr = shifted_in j.dr_length j.tdi j.dr }
  shift shift_ir j = record j { ir = shifted_in ir_length j.tdi j.ir }
  shift _ j = j

  -- `jtag_dtm_t::capture_dr`.
  unfoldable pub captured : JtagDtm Dm → JtagDtm Dm
  captured j =
      if j.ir == ir_idcode
      then record j { dr = idcode; dr_length = 32 }
      else if j.ir == ir_dtmcontrol
      then record j { dr = j.dtmcontrol; dr_length = 32 }
      else if j.ir == ir_dbus
      then if ltb 0 j.rti_remaining || j.busy_stuck
        then record j { dr = dmi_op_status_busy; busy_stuck = true; dr_length = abits + 34 }
        else record j { dr = j.dmi; dr_length = abits + 34 }
      else j

  -- The result of a read and of a write of the debug module.
  unfoldable pub read_answer : Option ℕ × Dm → JtagDtm Dm → Bool × JtagDtm Dm
  read_answer (some value, dm) j =
      (true, record j { dm = dm; dmi = set_field j.dmi dmi_data value })
  read_answer (none, dm) j = (false, record j { dm = dm })

  abbrev write_answer : Bool × Dm → JtagDtm Dm → Bool × JtagDtm Dm
  write_answer r j = (r.0, record j { dm = r.1 })

  -- The access that `dr` asks for, with whether it succeeds.
  unfoldable pub access : DebugModule Dm → JtagDtm Dm → Bool × JtagDtm Dm
  access m j =
      let op = get_field j.dr dmi_op in
      let value = get_field j.dr dmi_data in
      let address = get_field j.dr dmi_address in
      if op == dmi_op_read
      then read_answer (m.dmi_read j.dm address) j
      else if op == dmi_op_write
      then write_answer (m.dmi_write j.dm address value) j
      else (true, j)

  unfoldable pub with_status : Bool × JtagDtm Dm → JtagDtm Dm
  with_status r =
      let j = r.1 in
      record j {
        dmi = set_field j.dmi dmi_op (if r.0 then dmi_op_status_success else dmi_op_status_failed);
        rti_remaining = j.required_rti_cycles;
      }

  -- What `dtmcontrol` asks for when it is updated.
  unfoldable pub controlled : JtagDtm Dm → JtagDtm Dm
  controlled j =
      let kept =
        if bit_and j.dr dtmcontrol_dmireset == 0 then j else record j { busy_stuck = false } in
      if bit_and j.dr dtmcontrol_dmihardreset == 0 then kept else reset_dtm kept

  -- `jtag_dtm_t::update_dr`.
  unfoldable pub updated : DebugModule Dm → JtagDtm Dm → JtagDtm Dm
  updated m j =
      if j.ir == ir_dtmcontrol
      then controlled j
      else if j.ir == ir_dbus && not j.busy_stuck
      then with_status (access m (record j { dmi = j.dr }))
      else j

  -- What the switch after the change of state does.
  unfoldable pub enter : DebugModule Dm → JtagState → JtagDtm Dm → JtagDtm Dm
  enter m run_test_idle j = record j {
    dm = m.run_test_idle j.dm;
    rti_remaining = j.rti_remaining - 1;
  }
  enter m test_logic_reset j = record j { ir = ir_idcode }
  enter m capture_dr j = captured j
  enter m shift_dr j = record j { tdo = j.dr % 2 == 1 }
  enter m update_dr j = updated m j
  enter m shift_ir j = record j { tdo = j.ir % 2 == 1 }
  enter m _ j = j

  -- The positive edge of the clock: the change of state reads the pins of the call before.
  unfoldable pub positive_edge : DebugModule Dm → JtagDtm Dm → JtagDtm Dm
  positive_edge m j =
      let to = next_state j.state j.tms in enter m to (record (shift j.state j) { state = to })

  -- `jtag_dtm_t::set_pins`.
  unfoldable pub set_pins : DebugModule Dm → (tck tms tdi : Bool) → JtagDtm Dm → JtagDtm Dm
  set_pins m tck tms tdi j =
      let moved = if not j.tck && tck then positive_edge m j else j in
      record moved { tck = tck; tms = tms; tdi = tdi }

  -- One cycle of the clock: the pins are set while it is low, and kept while it is high.
  unfoldable pub clock : DebugModule Dm → (tms tdi : Bool) → JtagDtm Dm → JtagDtm Dm
  clock m tms tdi j = set_pins m true tms tdi (set_pins m false tms tdi j)
