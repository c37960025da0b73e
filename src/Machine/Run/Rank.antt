-- ===== src/Machine/Run/Rank.antt =====
-- The rounds of the outer loop of riscv/execute.cc that retire no instruction: an instruction that asks
-- to be run again with the state serialized, and the end of a single step. Each lowers a rank.
use processorfuzz.Base.{
  ℕ, suc, ◌+◌, ◌≤◌, ◌≡◌, refl, ◌∙◌, arith, Bool, true, false, not, ◌&&◌, ◌==◌, of_bool,
  if◌then◌else◌, Option, none, some,
}
use processorfuzz.Mmu.{fetch}
use processorfuzz.Processor.State.{Config, Outcome, ok, threw, aborted}
use processorfuzz.Machine.Hart.{Machine, Simif, Action, SingleStep, bind}
use processorfuzz.Machine.Access.{
  translate, mmio_ok, mmio_load, load_phys, fetch_parcel, load_rest, load_insn, decoded,
  throw_access_exception,
}
use processorfuzz.Machine.Decode.{insn_length}
use processorfuzz.Machine.Execute.{}
use processorfuzz.Machine.Sound.{choose}
use processorfuzz.Machine.Run.{
  Interrupts, is_stepping, is_stepped, advance_step, raised, assert_int, take_pending_interrupt,
  before_insn,
}

abbrev pub rank : {Io : Type 0} → Machine Io → ℕ
rank m = of_bool (not m.serialized) + of_bool (is_stepping m.single_step)

pub choose_by :
    {A : Type 0} (P : A → Type 0) (b : Bool) (x y : A)
    → (b ≡ true → P x)
    → (b ≡ false → P y)
    → P (if b then x else y)
choose_by P true x y p q = p refl
choose_by P false x y p q = q refl

stop_lt :
    (b : Bool) (t : SingleStep)
    → (b && is_stepped t) ≡ true
    → suc (of_bool b + 0) ≤ of_bool b + of_bool (is_stepping t)
stop_lt b t h = ground arith

none_le : (b : Bool) (t : SingleStep) → of_bool b + 0 ≤ of_bool b + of_bool (is_stepping t)
none_le b t = omega arith

advance_le :
    (b : Bool) (t : SingleStep)
    → of_bool b + of_bool (is_stepping (advance_step t)) ≤ of_bool b + of_bool (is_stepping t)
advance_le b t = ground arith

module _ {Io : Type 0} where
  -- An action that leaves the rank alone.
  abbrev pub SameRank : {A : Type 0} → Machine Io → Outcome A × Machine Io → Type 0
  SameRank m r = rank r.1 ≡ rank m

  SameRank-bind :
      {A B : Type 0} (m : Machine Io) (r : Outcome A × Machine Io) (k : A → Action Io B)
      → SameRank m r
      → ((a : A) (m' : Machine Io) → SameRank m' (k a m'))
      → SameRank m (bind r k)
  SameRank-bind m (ok a, m') k p h = h a m' ∙ p
  SameRank-bind m (threw t, m') k p h = p
  SameRank-bind m (aborted, m') k p h = p

  SameRank-if :
      {A : Type 0} (m : Machine Io) (b : Bool) (r r' : Outcome A × Machine Io)
      → SameRank m r
      → SameRank m r'
      → SameRank m (if b then r else r')
  SameRank-if m b r r' p q = choose (SameRank m) b r r' p q

  raised-SameRank : (o : Option ℕ) (m : Machine Io) → SameRank m (raised o m)
  unfolding take_pending_interrupt
  raised-SameRank none m = refl
  raised-SameRank (some val) m = refl

  pub assert_int-SameRank :
      (intrs : Interrupts) (pc : ℕ) (m : Machine Io) → SameRank m (assert_int intrs pc m)
  unfolding assert_int
  assert_int-SameRank intrs pc m = raised-SameRank (intrs pc) m

  module _ (c : Config) (sim : Simif Io) where
    fetch_parcel-SameRank : (addr : ℕ) (m : Machine Io) → SameRank m (fetch_parcel c sim addr m)
    unfolding fetch_parcel load_phys mmio_load
    fetch_parcel-SameRank addr m =
        SameRank-bind m (translate c sim addr 2 fetch m, m) _ refl
          (λ p m1. SameRank-if m1 (sim.addr_to_mem p) _ _ refl (
            SameRank-if m1 (mmio_ok m1.hart p) _ (threw (throw_access_exception fetch addr), m1)
              refl refl))

    then_parcel :
        {A : Type 0} (addr : ℕ) (k : ℕ → Action Io A) (m : Machine Io)
        → ((p : ℕ) (m' : Machine Io) → SameRank m' (k p m'))
        → SameRank m (bind (fetch_parcel c sim addr m) k)
    then_parcel addr k m h =
        SameRank-bind m (fetch_parcel c sim addr m) k (fetch_parcel-SameRank addr m) h

    load_rest-SameRank : (addr low : ℕ) (m : Machine Io) → SameRank m (load_rest c sim addr low m)
    unfolding load_rest
    load_rest-SameRank addr low m =
        choose (λ (a : Action Io ℕ). SameRank m (a m)) (insn_length low == 4) _ _
          (then_parcel _ _ m (λ p m1. refl))
          (choose (λ (a : Action Io ℕ). SameRank m (a m)) (insn_length low == 2) _ _ refl
            (choose (λ (a : Action Io ℕ). SameRank m (a m)) (insn_length low == 6) _ _
              (then_parcel _ _ m (λ q m1. then_parcel _ _ m1 (λ p m2. refl)))
              (then_parcel _ _ m
                (λ r m1. then_parcel _ _ m1 (λ q m2. then_parcel _ _ m2 (λ p m3. refl))))))

    pub load_insn-SameRank : (addr : ℕ) (m : Machine Io) → SameRank m (load_insn c sim addr m)
    unfolding load_insn decoded
    load_insn-SameRank addr m = then_parcel addr _ m (λ low m1.
        SameRank-bind m1 (load_rest c sim addr low m1) _ (load_rest-SameRank addr low m1)
          (λ bits m2. refl))

  -- The end of a single step lowers the rank, and nothing before an instruction raises it.
  abbrev pub Stops : ℕ → Bool × Machine Io → Type 0
  Stops k (true, m) = suc (rank m) ≤ k
  Stops k (false, m) = rank m ≤ k

  pub before_insn-Stops : (slow : Bool) (m : Machine Io) → Stops (rank m) (before_insn slow m)
  unfolding before_insn
  before_insn-Stops slow m =
      let b = not m.serialized in
      choose (Stops (rank m)) slow _ _
        (choose_by (Stops (rank m)) (b && is_stepped m.single_step) _ _
          (λ y.
            choose (Stops (rank m)) m.hart.debug_mode _ _ (none_le b m.single_step)
              (stop_lt b m.single_step y))
          (λ n. advance_le b m.single_step))
        (omega arith)
