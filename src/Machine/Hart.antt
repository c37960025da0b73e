-- ===== src/Machine/Hart.antt =====
-- The state that the instructions change, `state_t` of riscv/processor.h with the integer registers
-- (`regfile_t` of riscv/decode.h) and what lies behind `simif_t` of riscv/simif.h: the memory and the
-- devices. An action returns, throws or aborts, and keeps the changes that it made before.
use processorfuzz.Base.{ℕ, zero, suc, ◌+◌, ◌-◌, ◌*◌, Bool, Option}
use processorfuzz.Base.{◌&&◌, ◌==◌, ltb, leb, if◌then◌else◌, update}
use processorfuzz.Libc.Bytes.{Memory, byte_of}
use processorfuzz.Machine.Decode.Search.{Decoder}
use processorfuzz.Processor.State.{State, Trap, Outcome, ok, threw, aborted}

-- `state.single_step`.
pub data SingleStep : Type 0 where
  step_none step_stepping step_stepped : SingleStep

-- `memory` holds the bytes at the addresses for which `addr_to_mem` is not NULL; `io` is the state of
-- the devices, `decoder` the processor's list of descriptors and its cache; the
-- last two are fields of `state_t` that the loop of riscv/execute.cc uses.
pub record Machine (Io : Type 0) : Type 0 where
  pub hart : State
  pub xpr : ℕ → ℕ
  pub memory : Memory
  pub io : Io
  pub decoder : Decoder
  pub serialized : Bool
  pub single_step : SingleStep

-- What a device answers, its state, and the pending interrupts, which a device may change.
pub record Reply (A : Type 0) (Io : Type 0) : Type 0 where
  pub answer : A
  pub io : Io
  pub mip : ℕ

-- `simif_t`, with `mmio_load` and `mmio_store` on little-endian numbers: `none` and `false` where
-- they return false.
pub record Simif (Io : Type 0) : Type 0 where
  pub addr_to_mem : ℕ → Bool
  pub mmio_load : Io → (mip addr len : ℕ) → Reply (Option ℕ) Io
  pub mmio_store : Io → (mip addr len value : ℕ) → Reply Bool Io

abbrev pub Action : Type 0 → Type 0 → Type 0
Action Io A = Machine Io → Outcome A × Machine Io

abbrev pub pure : {Io A : Type 0} → A → Action Io A
pure a m = (ok a, m)

abbrev pub throw : {Io A : Type 0} → Trap → Action Io A
throw t m = (threw t, m)

-- A computation that changes nothing.
abbrev pub lift : {Io A : Type 0} → (Machine Io → Outcome A) → Action Io A
lift f m = (f m, m)

abbrev pub bind :
    {Io A B : Type 0} → Outcome A × Machine Io → (A → Action Io B) → Outcome B × Machine Io
bind (ok a, m) k = k a m
bind (threw t, m) k = (threw t, m)
bind (aborted, m) k = (aborted, m)

infixl 5 ◌>>=◌
abbrev pub ◌>>=◌ : {Io A B : Type 0} → Action Io A → (A → Action Io B) → Action Io B
(f >>= k) m = bind (f m) k

-- The registers of the hart, and a register: `regfile_t::write` drops a write of register zero.
abbrev pub with_hart : {Io : Type 0} → Machine Io → State → Machine Io
with_hart m s = record m { hart = s }

unfoldable pub write_reg : {Io : Type 0} → (reg value : ℕ) → Machine Io → Machine Io
write_reg reg value m = if reg == 0 then m else record m { xpr = update m.xpr reg value }

-- `reg_from_bytes` of riscv/mmu.cc on the `len` bytes from an address on.
unfoldable pub load_le : Memory → (p len : ℕ) → ℕ
load_le mem p zero = 0
load_le mem p (suc len) = mem p + 256 * load_le mem (p + 1) len

-- `memcpy` of the `len` bytes of a little-endian number to an address.
unfoldable pub store_le : Memory → (p len value : ℕ) → Memory
store_le mem p len value a = if leb p a && ltb a (p + len) then byte_of value (a - p) else mem a
