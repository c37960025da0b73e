-- ===== src/Machine/Sound.antt =====
-- What holds of the hart, its registers and its memory between the instructions of riscv/execute.cc,
-- and the actions that keep it.
pub mod Words
pub mod Values
pub mod Access
pub mod Next
pub mod System
pub mod Execute
use processorfuzz.Base.{Bool, true, false, if◌then◌else◌, ℕ, ◌^◌, ◌<◌, ◌≡◌}
use processorfuzz.Libc.Bytes.{Memory, IsBytes}
use processorfuzz.Processor.State.{State, Trap, Outcome, ok, threw, aborted, Ensures}
use processorfuzz.Processor.Legal.{IsLegal}
use processorfuzz.Machine.Decode.Refine.{IsDecoder}
use processorfuzz.Machine.Hart.{Machine, SingleStep, Action, bind}

-- The registers are legal and words, register zero is zero, the memory holds bytes, and the decoder
-- answers as its table.
pub record IsSound {Io : Type 0} (m : Machine Io) : Type 0 where
  pub legal : IsLegal m.hart
  pub zero_reg : m.xpr 0 ≡ 0
  pub words : (i : ℕ) → m.xpr i < 2 ^ 64
  pub bytes : IsBytes m.memory
  pub decodes : IsDecoder m.decoder

-- The machine after an action is sound, and its result, if it returns, has a property.
pub record Keeps {Io A : Type 0} (P : A → Type 0) (r : Outcome A × Machine Io) : Type 0 where
  pub kept : IsSound r.1
  pub result : Ensures P r.0

module _ {Io A B : Type 0} (P : A → Type 0) (Q : B → Type 0) where
  pub bind-Keeps :
      (r : Outcome A × Machine Io) (k : A → Action Io B)
      → Keeps P r
      → ((a : A) (m : Machine Io) → P a → IsSound m → Keeps Q (k a m))
      → Keeps Q (bind r k)
  bind-Keeps (ok a, m) k v h = h a m v.result v.kept
  bind-Keeps (threw t, m) k v h = record { kept = v.kept; result = tt }
  bind-Keeps (aborted, m) k v h = record { kept = v.kept; result = tt }

-- The machine with other registers of the hart.
pub hart-IsSound :
    {Io : Type 0} (m : Machine Io) (s : State)
    → IsSound m
    → IsLegal s
    → IsSound (record m { hart = s })
hart-IsSound m s v l = record {
  legal = l;
  zero_reg = v.zero_reg;
  words = v.words;
  bytes = v.bytes;
  decodes = v.decodes;
}

-- The flags of the loop do not matter.
pub flags-IsSound :
    {Io : Type 0} (m : Machine Io) (serialized : Bool) (single_step : SingleStep)
    → IsSound m
    → IsSound (record m { serialized = serialized; single_step = single_step })
flags-IsSound m serialized single_step v = record {
  legal = v.legal;
  zero_reg = v.zero_reg;
  words = v.words;
  bytes = v.bytes;
  decodes = v.decodes;
}

-- A choice has what both its branches have.
pub choose : {A : Type 0} (P : A → Type 0) (b : Bool) (x y : A) → P x → P y → P (if b then x else y)
choose P true x y p q = p
choose P false x y p q = q

-- The hart with other pending interrupts.
pub mip-IsLegal : (s : State) (mip : ℕ) → IsLegal s → IsLegal (record s { mip = mip })
mip-IsLegal s mip v = record {
  even_pc = v.even_pc;
  traps = v.traps;
  delegation = v.delegation;
  pmp = v.pmp;
  ranges = v.ranges;
}

-- Nothing is known of the result.
abbrev pub Any : {A : Type 0} → A → Type 0
Any a = Unit

pub Ensures-Any : {A : Type 0} (o : Outcome A) → Ensures Any o
Ensures-Any (ok a) = tt
Ensures-Any (threw t) = tt
Ensures-Any aborted = tt

pub Keeps-if :
    {Io A : Type 0} (P : A → Type 0) (b : Bool) (r r' : Outcome A × Machine Io)
    → Keeps P r
    → Keeps P r'
    → Keeps P (if b then r else r')
Keeps-if P true r r' v w = v
Keeps-if P false r r' v w = w

pub Keeps-choice :
    {Io A : Type 0} (P : A → Type 0) (b : Bool) (f g : Action Io A) (m : Machine Io)
    → Keeps P (f m)
    → Keeps P (g m)
    → Keeps P ((if b then f else g) m)
Keeps-choice P true f g m v w = v
Keeps-choice P false f g m v w = w

-- A throw changes nothing.
pub threw-Keeps :
    {Io A : Type 0} (P : A → Type 0) (t : Trap) (m : Machine Io) → IsSound m → Keeps P (threw t, m)
threw-Keeps P t m v = record { kept = v; result = tt }
