-- ===== src/Processor/Served.antt =====
-- `take_interrupt` of riscv/processor.cc never reaches its `abort`.
use native.Mathlib.Nat.{one-le-pow}
use processorfuzz.Base.{
  ℕ, ◌*◌, ◌/◌, ◌%◌, ◌^◌, ◌≡◌, ◌≢◌, refl, sym, ◌∙◌, arith, bit_and, Bool, true, false, not, ◌||◌,
  ◌==◌, ==_iff, if◌then◌else◌, List, [], ◌∷◌, Option, none, some, Bool-cases, inl, inr,
}
use processorfuzz.Base.Digits.{test, bit_and_single}
use processorfuzz.Processor.State.{State, Outcome, ok, aborted}
use processorfuzz.Processor.Masks.{irq_m_ext}
use processorfuzz.Processor.Trap.{
  interrupt_of, enabled_interrupts, first_enabled, standard_order, prioritized, take_interrupt,
}
use processorfuzz.Processor.Taken.{enabled_interrupts-IsPart, true-false}

if-none :
    (b : Bool) (x : Option ℕ) (m : ℕ) → (if b then x else some m) ≡ none → (b ≡ true) × (x ≡ none)
if-none true x m h = (refl, h)
if-none false x m h = cc

if-low :
    (b : Bool) (n : ℕ) (x : Option ℕ)
    → (if not b then some n else x) ≡ none
    → (b ≡ true) × (x ≡ none)
if-low true n x h = (refl, h)
if-low false n x h = cc

if-aborted :
    (b : Bool) (o : Outcome (Unit {0}))
    → (if b then ok tt else o) ≡ aborted
    → (b ≡ false) × (o ≡ aborted)
if-aborted true o h = cc
if-aborted false o h = (refl, h)

interrupt_of-none : (m : Option ℕ) → interrupt_of m ≡ aborted → m ≡ none
interrupt_of-none none h = refl
interrupt_of-none (some bits) h = cc

not_idle : (a b c : Bool) → (a || b || c) ≡ false → c ≡ false
not_idle false false c h = h
not_idle false true c h = cc
not_idle true b c h = cc

no_bit : (n e : ℕ) → (bit_and e (1 * 2 ^ n) == 0) ≡ true → test n e ≡ 0
no_bit n e h = elim (Bool-cases (test n e == 0)) [
  | inl z ↦ (==_iff _ _).0 z
  | inr z ↦
      let some_bit : test n e ≢ 0 = λ w. true-false (sym ((==_iff _ _).1 w) ∙ z) in
      let one : test n e ≡ 1 = omega arith in
      let zero : e / 2 ^ n % 2 * 2 ^ n ≡ 0 = sym (bit_and_single n e) ∙ (==_iff _ _).0 h in
      let alone : 1 * 2 ^ n ≡ 0 = rw (← one) zero in
      absurd (omega (arith, alone, one-le-pow n 2 (omega arith)))
]

-- Each number of the list has no bit of `e`.
abbrev AllClear : ℕ → List ℕ → Type 0
AllClear e [] = Unit
AllClear e (m ∷ ms) = ((bit_and e m == 0) ≡ true) × AllClear e ms

first_enabled-AllClear : (e : ℕ) (ms : List ℕ) → first_enabled ms e ≡ none → AllClear e ms
unfolding first_enabled
first_enabled-AllClear e [] h = tt
first_enabled-AllClear e (m ∷ ms) h =
    let (z, k) = if-none (bit_and e m == 0) (first_enabled ms e) m h in
    (z, first_enabled-AllClear e ms k)

-- The bits below IRQ_M_EXT, of which `standard_order` has all but 0, 4 and 8.
low_zero :
    (e : ℕ)
    → AllClear e standard_order
    → e / 2 ^ irq_m_ext ≡ 0
    → test 0 e ≡ 0
    → test 4 e ≡ 0
    → test 8 e ≡ 0
    → e ≡ 0
low_zero e (_, (z3, (z7, (z9, (z1, (z5, (z10, (z2, (z6, _))))))))) high b0 b4 b8 = omega (
  arith,
  high,
  b0,
  b4,
  b8,
  no_bit 3 e z3,
  no_bit 7 e z7,
  no_bit 9 e z9,
  no_bit 1 e z1,
  no_bit 5 e z5,
  no_bit 10 e z10,
  no_bit 2 e z2,
  no_bit 6 e z6,
)

prioritized-none :
    (e : ℕ) → prioritized e ≡ none → test 0 e ≡ 0 → test 4 e ≡ 0 → test 8 e ≡ 0 → e ≡ 0
unfolding prioritized
prioritized-none e h =
    let (high, low) =
      if-low (e / 2 ^ irq_m_ext == 0) (e / 2 ^ irq_m_ext * 2 ^ irq_m_ext)
        (first_enabled standard_order e) h in
    low_zero e (first_enabled-AllClear e standard_order low) ((==_iff _ _).0 high)

module _ (s : State) (pending : ℕ) (p0 : test 0 pending ≡ 0) (p4 : test 4 pending ≡ 0)
    (p8 : test 8 pending ≡ 0) where
  clear : (k : ℕ) → test k pending ≡ 0 → test k (enabled_interrupts s pending) ≡ 0
  clear k z =
      let part = (enabled_interrupts-IsPart s pending).part k in
      let unset : test k (enabled_interrupts s pending) ≢ 1 =
        λ w. absurd (omega (arith, z, part w)) in
      omega (arith, unset)

  -- With none of the bits 0, 4 and 8 pending, which no interrupt has, `take_interrupt` does not
  -- abort: it returns or throws the trap of an interrupt.
  pub take_interrupt_served : take_interrupt s pending ≢ aborted
  unfolding take_interrupt
  take_interrupt_served h =
      let e = enabled_interrupts s pending in
      let (busy, stopped) =
        if-aborted (pending == 0 || s.debug_mode || e == 0) (interrupt_of (prioritized e)) h in
      let none = interrupt_of-none (prioritized e) stopped in
      let zero = prioritized-none e none (clear 0 p0) (clear 4 p4) (clear 8 p8) in
      true-false (sym ((==_iff e 0).1 zero) ∙ not_idle (pending == 0) s.debug_mode (e == 0) busy)
