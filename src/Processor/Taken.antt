-- ===== src/Processor/Taken.antt =====
-- Which interrupt is taken, and when: `ctz` and `take_interrupt` of riscv/processor.cc.
use native.Mathlib.Nat.{pow-suc, div-div-eq-div-mul}
use processorfuzz.Base.{
  ℕ, zero, suc, ◌*◌, ◌/◌, ◌%◌, ◌^◌, ◌<◌, ◌≤◌, ◌≡◌, ◌≢◌, ◌⊎◌, refl, ap, sym, ◌∙◌, arith, bit_and,
  bit_or, Bool, true, false, not, ◌&&◌, ◌||◌, ◌==◌, if◌then◌else◌, ==_iff, List, [], ◌∷◌, Option,
  none, some, Bool-cases, inl, inr,
}
use processorfuzz.Base.Digits.{
  test, test-zero, test-suc, test-bit_and, bit_and_single, bit_and-le_left,
}
use processorfuzz.Processor.Legal.Delegation.{zero_bits}
use processorfuzz.Processor.State.{State, Trap, Outcome, ok, threw, not64, prv_m}
use processorfuzz.Processor.Masks.{on, mip_vs_mask, irq_m_ext}
use processorfuzz.Processor.Return.{get_field-mie}
use processorfuzz.Processor.Trap.{
  interrupt_of, m_enabled, s_enabled, m_interrupts, hs_interrupts, vs_interrupts, ctz_from, ctz,
  enabled_interrupts, first_enabled, standard_order, prioritized, take_interrupt,
}

-- The lowest set bit.
pub record IsLowest (x k : ℕ) : Type 0 where
  pub is_set : test k x ≡ 1
  pub below : (j : ℕ) → j < k → test j x ≡ 0

shift_down : (x k : ℕ) → x % 2 ≡ 0 → IsLowest (x / 2) k → IsLowest x (suc k)
shift_down x k e h = record { is_set = test-suc k x ∙ h.is_set; below = λ j l. low x k e h j l }
  where
    low : (x k : ℕ) → x % 2 ≡ 0 → IsLowest (x / 2) k → (j : ℕ) → j < suc k → test j x ≡ 0
    low x k e h zero l = test-zero x ∙ e
    low x k e h (suc j) l = test-suc j x ∙ h.below j (omega arith)

odd-IsLowest : (x : ℕ) → x % 2 ≡ 1 → IsLowest x 0
odd-IsLowest x e = record { is_set = test-zero x ∙ e; below = λ j l. absurd (omega arith) }

not_odd : (x : ℕ) → (x % 2 == 1) ≡ false → x % 2 ≡ 0
not_odd x e = ground arith

ctz_from-IsLowest : (bits x : ℕ) → 0 < x → x < 2 ^ bits → IsLowest x (ctz_from bits x)
unfolding ctz_from
ctz_from-IsLowest zero x p l = absurd (omega arith)
ctz_from-IsLowest (suc bits) x p l = elim (Bool-cases (x % 2 == 1)) [
  | inl e ↦ rw e (odd-IsLowest x ((==_iff _ _).0 e))
  | inr e ↦ rw e (
      shift_down x (ctz_from bits (x / 2)) (not_odd x e) (
        ctz_from-IsLowest bits (x / 2) (omega (arith, not_odd x e))
          (omega (arith, pow-suc 2 bits))))
]

-- `ctz` of a nonzero register is the number of its lowest set bit: that bit is set, and none below.
pub ctz-IsLowest : (x : ℕ) → 0 < x → x < 2 ^ 64 → IsLowest x (ctz x)
unfolding ctz
ctz-IsLowest x p l = elim (Bool-cases (x == 0)) [
  | inl e ↦ let z : x ≡ 0 = (==_iff _ _).0 e in absurd (omega arith)
  | inr e ↦ rw e (ctz_from-IsLowest 64 x p l)
]

-- Every enabled interrupt is pending.
pub record IsPart (p n : ℕ) : Type 0 where
  pub bound : n ≤ p
  pub part : (k : ℕ) → test k n ≡ 1 → test k p ≡ 1

on-IsPart : (p m : ℕ) (b : Bool) → IsPart p (on b (bit_and p m))
on-IsPart p m true = record {
  bound = bit_and-le_left p m;
  part = λ k h. omega (arith, test-bit_and k p m, h);
}
on-IsPart p m false = record {
  bound = omega arith;
  part = λ k h. absurd (omega (arith, zero_bits k, h));
}

chosen-IsPart :
    (p : ℕ) (a b : Bool) (x y z : ℕ)
    → IsPart p x
    → IsPart p y
    → IsPart p z
    → IsPart p (if a then x else if b then y else z)
chosen-IsPart p true b x y z f g h = f
chosen-IsPart p false true x y z f g h = g
chosen-IsPart p false false x y z f g h = h

pub enabled_interrupts-IsPart : (s : State) (p : ℕ) → IsPart p (enabled_interrupts s p)
unfolding enabled_interrupts
enabled_interrupts-IsPart s p =
    chosen-IsPart p (not (m_interrupts s p == 0)) (s.v && hs_interrupts s p == 0) (m_interrupts s p)
      (vs_interrupts s p) (hs_interrupts s p) (on-IsPart p (not64 s.mideleg) (m_enabled s))
      (on-IsPart p (bit_and s.mideleg s.hideleg) (s_enabled s s.mstatus))
      (on-IsPart p (bit_and s.mideleg (not64 mip_vs_mask))
        (s_enabled s (if s.v then s.vsstatus else s.mstatus)))

-- The bits from `n` on are bits of the number.
whole : (x : ℕ) → x / 2 ^ 0 * 2 ^ 0 ≡ x
whole x = omega arith

half_upper : (x n : ℕ) → x / 2 ^ suc n * 2 ^ suc n / 2 ≡ x / 2 / 2 ^ n * 2 ^ n
half_upper x n =
    let parts : x / 2 ^ suc n ≡ x / 2 / 2 ^ n =
      ap (λ d. x / d) (pow-suc 2 n ∙ omega arith) ∙ sym (div-div-eq-div-mul x 2 (2 ^ n)) in
    rw (parts, pow-suc 2 n) (omega arith)

even_upper : (x n : ℕ) → x / 2 ^ suc n * 2 ^ suc n % 2 ≡ 0
even_upper x n = omega (arith, ap (λ d. x / 2 ^ suc n * d) (pow-suc 2 n))

upper-subset : (n k x : ℕ) → test k (x / 2 ^ n * 2 ^ n) ≡ 1 → test k x ≡ 1
upper-subset zero k x h = rw (← whole x) h
upper-subset (suc n) zero x h =
    absurd (omega (arith, even_upper x n, h, test-zero (x / 2 ^ suc n * 2 ^ suc n)))
upper-subset (suc n) (suc k) x h =
    test-suc k x
    ∙ upper-subset n k (x / 2)
        (ap (test k) (sym (half_upper x n)) ∙ sym (test-suc k (x / 2 ^ suc n * 2 ^ suc n)) ∙ h)

-- Bits of one interrupt each.
data Singles : List ℕ → Type 0 where
  nil : Singles []
  cons : (n : ℕ) {m : ℕ} {ms : List ℕ} → m ≡ 1 * 2 ^ n → ctz m ≡ n → Singles ms → Singles (m ∷ ms)

standard_order-Singles : Singles standard_order
unfolding ctz ctz_from
standard_order-Singles = cons 11 refl refl (
    cons 3 refl refl (
      cons 7 refl refl (
        cons 9 refl refl (
          cons 1 refl refl
            (cons 5 refl refl (cons 10 refl refl (cons 2 refl refl (cons 6 refl refl nil))))))))

pub true-false : true ≡ false → ⊥
true-false h = cc

not_zero : (n : ℕ) → not (n == 0) ≡ true → n ≢ 0
not_zero n h e = ground arith

has_bit : (e n : ℕ) → (bit_and e (1 * 2 ^ n) == 0) ≡ false → test n e ≡ 1
has_bit e n h = elim (Bool-cases (test n e == 0)) [
  | inl z ↦
      let zero : test n e ≡ 0 = (==_iff _ _).0 z in
      let none : bit_and e (1 * 2 ^ n) ≡ 0 = bit_and_single n e ∙ rw zero (omega arith) in
      absurd (true-false ((sym ((==_iff _ _).1 none)) ∙ h))
  | inr z ↦ let some : test n e ≢ 0 = λ w. true-false (sym ((==_iff _ _).1 w) ∙ z) in omega arith
]

if-some :
    (b : Bool) (x y : Option ℕ) (v : ℕ)
    → (if b then x else y) ≡ some v
    → ((b ≡ true) × (x ≡ some v)) ⊎ ((b ≡ false) × (y ≡ some v))
if-some true x y v h = inl (refl, h)
if-some false x y v h = inr (refl, h)

some-inj : (a b : ℕ) → some a ≡ some b → a ≡ b
some-inj a b h = cc

first_enabled_sound :
    (ms : List ℕ) (e bits : ℕ) → Singles ms → first_enabled ms e ≡ some bits → test (ctz bits) e ≡ 1
unfolding first_enabled
first_enabled_sound [] e bits s h = cc
first_enabled_sound (m ∷ ms) e bits (cons n eq c rest) h =
    elim (if-some (bit_and e m == 0) (first_enabled ms e) (some m) bits h) [
      | inl (z, k) ↦ first_enabled_sound ms e bits rest k
      | inr (z, k) ↦
          let b : m ≡ bits = some-inj m bits k in
          let at : ctz bits ≡ n = rw (← b) c in rw at (has_bit e n (rw (← eq) z))
    ]

upper-IsLowest : (e k : ℕ) → IsLowest (e / 2 ^ irq_m_ext * 2 ^ irq_m_ext) k → test k e ≡ 1
upper-IsLowest e k h = upper-subset irq_m_ext k e h.is_set

prioritized_sound : (e bits : ℕ) → e < 2 ^ 64 → prioritized e ≡ some bits → test (ctz bits) e ≡ 1
unfolding prioritized
prioritized_sound e bits l h = elim (if-some (not (e / 2 ^ irq_m_ext == 0)) _ _ bits h) [
  | inl (z, k) ↦
      let high = e / 2 ^ irq_m_ext * 2 ^ irq_m_ext in
      let b : high ≡ bits = some-inj high bits k in
      let some_bit : e / 2 ^ irq_m_ext ≢ 0 = not_zero (e / 2 ^ irq_m_ext) z in
      rw (← b) (upper-IsLowest e (ctz high) (ctz-IsLowest high (omega arith) (omega arith)))
  | inr (z, k) ↦ first_enabled_sound standard_order e bits standard_order-Singles k
]

if-threw :
    (b : Bool) (o : Outcome (Unit {0})) (t : Trap)
    → (if b then ok tt else o) ≡ threw t
    → (b ≡ false) × (o ≡ threw t)
if-threw true o t h = cc
if-threw false o t h = (refl, h)

interrupt_of-threw :
    (m : Option ℕ) (t : Trap)
    → interrupt_of m ≡ threw t
    → (bits : ℕ) × (m ≡ some bits) × (t.cause ≡ bit_or (2 ^ 63) (ctz bits))
interrupt_of-threw none t h = cc
interrupt_of-threw (some bits) t h = (bits, refl, cc)

not_in_debug : (a b c : Bool) → (a || b || c) ≡ false → b ≡ false
not_in_debug false false c h = refl
not_in_debug false true c h = cc
not_in_debug true b c h = cc

-- An interrupt that is taken is pending and enabled: the trap's cause is the top bit and the number
-- of a pending bit that `enabled_interrupts` has, and the hart is not in debug mode.
pub take_interrupt_sound :
    (s : State) (pending : ℕ) (t : Trap)
    → pending < 2 ^ 64
    → take_interrupt s pending ≡ threw t
    → (k : ℕ) × (t.cause ≡ bit_or (2 ^ 63) k)
      × (test k pending ≡ 1)
      × (test k (enabled_interrupts s pending) ≡ 1)
      × (s.debug_mode ≡ false)
unfolding take_interrupt
take_interrupt_sound s pending t l h =
    let enabled = enabled_interrupts s pending in
    let part = enabled_interrupts-IsPart s pending in
    let (idle, thrown) =
      if-threw (pending == 0 || s.debug_mode || enabled == 0) (interrupt_of (prioritized enabled)) t
        h in
    let (bits, chosen, cause) = interrupt_of-threw (prioritized enabled) t thrown in
    let at = prioritized_sound enabled bits (omega (arith, part.bound, l)) chosen in
    (
      ctz bits,
      cause,
      part.part (ctz bits) at,
      at,
      not_in_debug (pending == 0) s.debug_mode (enabled == 0) idle,
    )

Same-if : (b : Bool) (n : ℕ) → (if b then n else n) ≡ n
Same-if true n = refl
Same-if false n = refl

quiet :
    (a b d : Bool) (o : Outcome (Unit {0})) → d ≡ true → (if a || b || d then ok tt else o) ≡ ok tt
quiet true b d o h = refl
quiet false true d o h = refl
quiet false false d o h = rw h refl

-- In machine mode with MIE clear no interrupt is taken, whatever is pending or delegated.
pub take_interrupt-masked :
    (s : State) (pending : ℕ)
    → s.prv ≡ prv_m
    → test 3 s.mstatus ≡ 0
    → take_interrupt s pending ≡ ok tt
unfolding take_interrupt enabled_interrupts
take_interrupt-masked s pending m e =
    let none : enabled_interrupts s pending ≡ 0 =
      rw (m, get_field-mie s.mstatus, e) (Same-if (s.v && true) 0) in
    quiet (pending == 0) s.debug_mode _ _ (rw none refl)
