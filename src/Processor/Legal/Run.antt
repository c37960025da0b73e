-- ===== src/Processor/Legal/Run.antt =====
-- A run of the hart: resets, CSR instructions, returns, traps and steps to the next instruction, as
-- riscv/processor.cc and riscv/insns make them. A step to the next instruction goes to any even
-- address; the register files, which the instructions change too, are not part of the state.
use processorfuzz.Base.{ℕ, ◌≡◌, Bool}
use mathlib.Core.Path.{subst}
use processorfuzz.Base.Digits.{test}
use processorfuzz.Processor.State.{State, Config, Trap, Outcome, ok, Ensures}
use processorfuzz.Processor.Write.{set_csr}
use processorfuzz.Processor.Trap.{take_trap, enter_debug_mode}
use processorfuzz.Processor.Privileged.{mret, sret, dret}
use processorfuzz.Processor.Reset.{reset}
use processorfuzz.Processor.Legal.{IsLegal}
use processorfuzz.Processor.Legal.Reset.{reset-IsLegal}
use processorfuzz.Processor.Legal.Writes.{set_csr-IsLegal}
use processorfuzz.Processor.Legal.Steps.{
  mret-IsLegal, sret-IsLegal, dret-IsLegal, take_trap-IsLegal, enter_debug_mode-IsLegal, at_pc,
}

-- One step of a hart.
pub data Step (c : Config) (s : State) : State → Type 0 where
  csr_write : (which val : ℕ) {s' : State} → set_csr c s which val ≡ ok s' → Step c s s'
  return_m : (bits : ℕ) {s' : State} → mret c s bits ≡ ok s' → Step c s s'
  return_s : (bits : ℕ) {s' : State} → sret c s bits ≡ ok s' → Step c s s'
  return_d : (bits : ℕ) {s' : State} → dret s bits ≡ ok s' → Step c s s'
  trap : (t : Trap) → Step c s (take_trap c s t s.pc)
  debug : (cause : ℕ) → Step c s (enter_debug_mode s cause)
  next : (pc : ℕ) → test 0 pc ≡ 0 → Step c s (record s { pc = pc })

-- The states that a hart reaches after a reset.
pub data Reach (c : Config) : State → Type 0 where
  start : (halt_on_reset : Bool) → Reach c (reset c halt_on_reset)
  after : {s s' : State} → Reach c s → Step c s s' → Reach c s'

Ensures-ok : {A : Type 0} (P : A → Type 0) (o : Outcome A) {a : A} → o ≡ ok a → Ensures P o → P a
Ensures-ok P o e p = subst (λ x. Ensures P x) e p

Step-IsLegal : {c : Config} {s s' : State} → Step c s s' → IsLegal s → IsLegal s'
Step-IsLegal {c = c} {s = s} (csr_write which val e) v =
    Ensures-ok IsLegal (set_csr c s which val) e (set_csr-IsLegal c s v which val)
Step-IsLegal {c = c} {s = s} (return_m bits e) v =
    Ensures-ok IsLegal (mret c s bits) e (mret-IsLegal c s bits v)
Step-IsLegal {c = c} {s = s} (return_s bits e) v =
    Ensures-ok IsLegal (sret c s bits) e (sret-IsLegal c s bits v)
Step-IsLegal {c = c} {s = s} (return_d bits e) v =
    Ensures-ok IsLegal (dret s bits) e (dret-IsLegal c s bits v)
Step-IsLegal {c = c} {s = s} (trap t) v = take_trap-IsLegal c s t s.pc v v.even_pc
Step-IsLegal {s = s} (debug cause) v = enter_debug_mode-IsLegal s cause v
Step-IsLegal {s = s} (next pc e) v = at_pc s pc e v

-- Whatever a hart runs after a reset, writes of any CSR with any value, returns, traps, debug mode
-- and steps to even addresses in any order, its registers stay legal, and its program counter even.
pub Reach-IsLegal : {c : Config} {s : State} → Reach c s → IsLegal s
Reach-IsLegal {c = c} (start halt_on_reset) = reset-IsLegal c halt_on_reset
Reach-IsLegal (after r st) = Step-IsLegal st (Reach-IsLegal r)
