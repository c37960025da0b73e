-- ===== src/Processor/Pmp.antt =====
-- Physical memory protection under `set_csr`: what a lock protects, and which entries are stored.
use processorfuzz.Base.{ℕ, zero, suc, ◌+◌, ◌*◌, ◌/◌, ◌%◌, ◌^◌, ◌<◌, ◌≡◌, refl, sym, ap, ◌∙◌, arith}
use processorfuzz.Base.{
  Bool, true, false, not, ◌&&◌, ◌==◌, ==_iff, ltb, lt→ltb, if◌then◌else◌, update, bit_and,
}
use processorfuzz.Base.{Bool-cases, inl, inr}
use processorfuzz.Processor.Number.{
  Csr, csr_of, csr_pmpaddr, csr_pmpcfg, csr_mtval2, csr_mtinst, csr_fflags, csr_htimedelta,
  csr_htimedeltah,
}
use processorfuzz.Processor.State.{State, Config, ok, threw, Ensures, Ensures-if, max_pmp}
use processorfuzz.Processor.State.{supports, letter_h}
use processorfuzz.Processor.Masks.{pmp_a, pmp_tor}
use processorfuzz.Processor.Registers.{illegal_instruction}
use processorfuzz.Processor.Debug.{is_locked, legal_pmpcfg, set_pmpcfgs, set_pmpaddr, set_pmpcfg}
use processorfuzz.Processor.Write.{write_csr, set_csr}

guard_off : (b : Bool) (x y : ℕ) → is_locked x ≡ true → x ≡ y → (b && not (is_locked y)) ≡ false
guard_off b x y h e = ground (arith, h, ap is_locked e)

guard_off3 :
    (b d : Bool) (x y : ℕ) → is_locked x ≡ true → x ≡ y → (b && not (is_locked y) && d) ≡ false
guard_off3 b d x y h e = ground (arith, h, ap is_locked e)

guard_tor :
    (a l m : Bool) (x y : ℕ)
    → m ≡ true
    → is_locked x ≡ true
    → bit_and x pmp_a ≡ pmp_tor
    → x ≡ y
    → (a && l && not (m && is_locked y && (m && bit_and y pmp_a == pmp_tor))) ≡ false
guard_tor a l m x y hm h t e =
    rw (hm, ap is_locked (sym e) ∙ h, (==_iff _ _).1 (ap (λ z. bit_and z pmp_a) (sym e) ∙ t))
      (ground arith)

-- A guarded write to another entry, or one whose guard fails, leaves an entry alone.
module _ (b : Bool) (f : ℕ → ℕ) (i v j : ℕ) where
  untouched : (j ≡ i → b ≡ false) → (if b then update f i v else f) j ≡ f j
  untouched h = elim (Bool-cases (j == i)) [
    | inl e ↦ rw (h ((==_iff j i).0 e)) refl
    | inr n ↦ elim (Bool-cases b) [ inl y ↦ rw (y, n) refl | inr y ↦ rw y refl ]
  ]

-- The loop leaves a locked entry alone.
set_pmpcfgs-locked :
    (c : Config) (left i val : ℕ) (cfgs : ℕ → ℕ) (j : ℕ)
    → is_locked (cfgs j) ≡ true
    → set_pmpcfgs c left i val cfgs j ≡ cfgs j
unfolding set_pmpcfgs
set_pmpcfgs-locked c zero i val cfgs j h = refl
set_pmpcfgs-locked c (suc left) i val cfgs j h =
    let b = ltb i c.n_pmp && not (is_locked (cfgs i)) in
    let off : j ≡ i → b ≡ false = λ e. guard_off (ltb i c.n_pmp) (cfgs j) (cfgs i) h (ap cfgs e) in
    let same = untouched b cfgs i (legal_pmpcfg c (val % 2 ^ 8)) j off in
    set_pmpcfgs-locked c left (i + 1) (val / 2 ^ 8) _ j (ap is_locked same ∙ h) ∙ same

-- The entry `j` is as before, and so is the address below it, if the entry is a range with that
-- lower end.
pub record KeepsEntry (s : State) (j : ℕ) (s' : State) : Type 0 where
  pub cfg : s'.pmpcfg j ≡ s.pmpcfg j
  pub addr : s'.pmpaddr j ≡ s.pmpaddr j
  pub base : (i : ℕ) → j ≡ i + 1 → bit_and (s.pmpcfg j) pmp_a ≡ pmp_tor → s'.pmpaddr i ≡ s.pmpaddr i

module _ (c : Config) (s : State) (j : ℕ) (valid : j < max_pmp)
    (locked : is_locked (s.pmpcfg j) ≡ true) where
  next : {i k : ℕ} → j ≡ k + 1 → k ≡ i → j ≡ i + 1
  next e e' = omega arith

  below : {i k : ℕ} → j ≡ k + 1 → k ≡ i → ltb (i + 1) max_pmp ≡ true
  below e e' = lt→ltb _ _ (omega (arith, next e e', valid))

  pmpaddr_kept : (i val : ℕ) → KeepsEntry s j (set_pmpaddr c s i val)
  unfolding set_pmpaddr
  pmpaddr_kept i val = record {
    cfg = refl;
    addr = untouched _ s.pmpaddr i _ j (λ e. guard_off3 _ _ _ _ locked (ap s.pmpcfg e));
    base = λ k e t. untouched _ s.pmpaddr i _ k (λ e'.
        guard_tor (ltb i c.n_pmp) (not (is_locked (s.pmpcfg i))) _ _ _ (below e e') locked t
          (ap s.pmpcfg (next e e')));
  }

  pmpcfg_kept : (i val : ℕ) → KeepsEntry s j (set_pmpcfg c s i val)
  unfolding set_pmpcfg
  pmpcfg_kept i val = record {
    cfg = elim (Bool-cases (c.n_pmp == 0)) [
      | inl y ↦ rw y refl
      | inr y ↦ rw y (set_pmpcfgs-locked c 8 (i * 4) val s.pmpcfg j locked)
    ];
    addr = refl;
    base = λ k e t. refl;
  }

  kept-if :
      (b : Bool) (s' : State)
      → KeepsEntry s j s'
      → Ensures (KeepsEntry s j) (if b then ok s' else threw (illegal_instruction 0))
  kept-if b s' k = Ensures-if (KeepsEntry s j) b s' (illegal_instruction 0) k

  write_csr-locked : (r : Csr) (val : ℕ) → Ensures (KeepsEntry s j) (write_csr c s r val)
  unfolding write_csr
  write_csr-locked (csr_pmpaddr i) val = pmpaddr_kept i val
  write_csr-locked (csr_pmpcfg i) val = pmpcfg_kept i val
  write_csr-locked csr_mtval2 val =
      kept-if (supports s letter_h) _ (record { cfg = refl; addr = refl; base = λ i e t. refl })
  write_csr-locked csr_mtinst val =
      kept-if (supports s letter_h) _ (record { cfg = refl; addr = refl; base = λ i e t. refl })
  write_csr-locked csr_htimedelta val = tt
  write_csr-locked csr_htimedeltah val = tt
  write_csr-locked csr_fflags val = record { cfg = refl; addr = refl; base = λ i e t. refl }
  write_csr-locked _ val = record { cfg = refl; addr = refl; base = λ i e t. refl }

  -- A write of any register, with any value, keeps a locked PMP entry: its configuration, its
  -- address, and the address before it, if the entry is a range that begins there.
  pub set_csr-KeepsEntry : (which val : ℕ) → Ensures (KeepsEntry s j) (set_csr c s which val)
  unfolding set_csr
  set_csr-KeepsEntry which val = write_csr-locked (csr_of which) (val % 2 ^ 64)
