-- ===== src/Machine/Access/Guard.antt =====
-- What an instruction of riscv/insns may write: the bytes that physical memory protection lets the
-- hart store to.
use processorfuzz.Base.{
  ℕ, ◌+◌, ◌%◌, ◌^◌, ◌≤◌, ◌<◌, ◌≡◌, ◌⊎◌, inl, inr, refl, sym, ap, ◌∙◌, arith, Bool, true, false,
  ◌&&◌, ◌==◌, Bool-cases, leb, ltb, if◌then◌else◌, bit_or,
}
use processorfuzz.Libc.Bytes.{Memory}
use processorfuzz.Mmu.{Access, load, store, Walk, translated, page_fault, access_fault}
use processorfuzz.Processor.State.{State, Config, Trap, Outcome, ok, threw, aborted}
use processorfuzz.Processor.Protection.{pmp_ok}
use processorfuzz.Machine.Hart.{Machine, Simif, Action, bind, pure, throw, store_le}
use processorfuzz.Machine.Access.{
  protected, walked, translate, access_prv, mmio_ok, mmio_load, mmio_store, load_phys, store_phys,
  load_mem, store_mem, misaligned_fault, throw_access_exception,
}

allowed-if :
    (b : Bool) (p q : ℕ) (t : Trap) → (if b then ok p else threw t) ≡ ok q → (b ≡ true) × (p ≡ q)
allowed-if true p q t h = (refl, cc)
allowed-if false p q t h = cc

-- An action that leaves the memory alone.
abbrev pub SameMemory : {Io A : Type 0} → Machine Io → Outcome A × Machine Io → Type 0
SameMemory m r = r.1.memory ≡ m.memory

pub SameMemory-if :
    {Io A : Type 0} (m : Machine Io) (b : Bool) (r r' : Outcome A × Machine Io)
    → SameMemory m r
    → SameMemory m r'
    → SameMemory m (if b then r else r')
SameMemory-if m true r r' p q = p
SameMemory-if m false r r' p q = q

pub SameMemory-bind :
    {Io A B : Type 0} (m : Machine Io) (r : Outcome A × Machine Io) (k : A → Action Io B)
    → SameMemory m r
    → ((a : A) (m' : Machine Io) → SameMemory m' (k a m'))
    → SameMemory m (bind r k)
SameMemory-bind m (ok a, m') k p h = h a m' ∙ p
SameMemory-bind m (threw t, m') k p h = p
SameMemory-bind m (aborted, m') k p h = p

module _ {Io : Type 0} (c : Config) (sim : Simif Io) where
  protected-IsAllowed :
      (addr len : ℕ) (type : Access) (s : State) (w : Walk) (p : ℕ)
      → protected c sim addr len type s w ≡ ok p
      → pmp_ok c s p len type (access_prv s type) ≡ true
  protected-IsAllowed addr len type s (translated page) p h =
      let (b, e) = allowed-if _ (bit_or page (addr % 2 ^ 12)) p _ h in
      ap (λ q. pmp_ok c s q len type (access_prv s type)) (sym e) ∙ b
  protected-IsAllowed addr len type s page_fault p h = cc
  protected-IsAllowed addr len type s access_fault p h = cc
  protected-IsAllowed addr len type s Walk.aborted p h = cc

  pub translate-IsAllowed :
      (addr len : ℕ) (type : Access) (m : Machine Io) (p : ℕ)
      → translate c sim addr len type m ≡ ok p
      → pmp_ok c m.hart p len type (access_prv m.hart type) ≡ true
  unfolding translate
  translate-IsAllowed addr len type m p h =
      protected-IsAllowed addr len type m.hart (walked c sim m addr type) p h

  -- A byte that the hart may store to: it lies in an access that PMP permits.
  pub record MayStore (s : State) (a : ℕ) : Type 0 where
    pub start : ℕ
    pub len : ℕ
    pub first : start ≤ a
    pub last : a < start + len
    pub permitted : pmp_ok c s start len store (access_prv s store) ≡ true

  -- Each byte is as before, or one that the hart may store to.
  abbrev pub Guarded : Machine Io → Machine Io → Type 0
  Guarded m m' = (a : ℕ) → (m'.memory a ≡ m.memory a) ⊎ MayStore m.hart a

  mmio_load-SameMemory :
      (vaddr paddr len : ℕ) (type : Access) (m : Machine Io)
      → SameMemory m (mmio_load c sim vaddr paddr len type m)
  unfolding mmio_load
  mmio_load-SameMemory vaddr paddr len type m =
      SameMemory-if m (mmio_ok m.hart paddr) _ (threw (throw_access_exception type vaddr), m) refl
        refl

  mmio_store-SameMemory :
      (vaddr paddr len value : ℕ) (m : Machine Io)
      → SameMemory m (mmio_store c sim vaddr paddr len value m)
  unfolding mmio_store
  mmio_store-SameMemory vaddr paddr len value m =
      SameMemory-if m (mmio_ok m.hart paddr) _ (threw (throw_access_exception store vaddr), m) refl
        refl

  pub load_mem-SameMemory :
      (addr len : ℕ) (m : Machine Io) → SameMemory m (load_mem c sim addr len m)
  unfolding load_mem load_phys
  load_mem-SameMemory addr len m =
      SameMemory-bind m (translate c sim addr len load m, m) _ refl
        (λ p m1.
          SameMemory-bind m1 (load_phys c sim addr p len load m1) _
            (SameMemory-if m1 (sim.addr_to_mem p) _ _ refl
              (mmio_load-SameMemory addr p len load m1))
            (λ v m2. aligned (addr % len == 0) v m2))
    where
      aligned :
          (b : Bool) (v : ℕ) (m2 : Machine Io)
          → SameMemory m2 ((if b then pure v else throw (misaligned_fault load addr)) m2)
      aligned true v m2 = refl
      aligned false v m2 = refl

  within :
      (mem : Memory) (p len value a : ℕ)
      → (store_le mem p len value a ≡ mem a) ⊎ ((p ≤ a) × (a < p + len))
  unfolding store_le
  within mem p len value a = elim (Bool-cases (leb p a && ltb a (p + len))) [
    | inl y ↦ inr (ground arith, ground arith)
    | inr n ↦ inl (rw n refl)
  ]

  store_phys-Guarded :
      (addr p len value : ℕ) (m : Machine Io)
      → pmp_ok c m.hart p len store (access_prv m.hart store) ≡ true
      → Guarded m (store_phys c sim addr p len value m).1
  unfolding store_phys
  store_phys-Guarded addr p len value m h a = elim (Bool-cases (sim.addr_to_mem p)) [
    | inl y ↦ rw y (placed (within m.memory p len value a))
    | inr n ↦ rw n (inl (ap (λ mem. mem a) (mmio_store-SameMemory addr p len value m)))
  ]
    where
      placed :
          (store_le m.memory p len value a ≡ m.memory a) ⊎ ((p ≤ a) × (a < p + len))
          → (store_le m.memory p len value a ≡ m.memory a) ⊎ MayStore m.hart a
      placed (inl e) = inl e
      placed (inr (l, u)) =
          inr (record { start = p; len = len; first = l; last = u; permitted = h })

  abbrev ends : (addr len : ℕ) → Action Io (Unit {0})
  ends addr len = if addr % len == 0 then pure tt else throw (misaligned_fault store addr)

  ends-SameMemory :
      (b : Bool) (addr : ℕ) (m : Machine Io)
      → SameMemory m ((if b then pure tt else throw (misaligned_fault store addr)) m)
  ends-SameMemory true addr m = refl
  ends-SameMemory false addr m = refl

  -- What leaves the memory alone after a guarded action.
  pub then-Guarded :
      {A B : Type 0} (m : Machine Io) (r : Outcome A × Machine Io) (k : A → Action Io B)
      → ((a : A) (m' : Machine Io) → SameMemory m' (k a m'))
      → Guarded m r.1
      → Guarded m (bind r k).1
  then-Guarded m r k h g a = rw (SameMemory-bind r.1 r k refl h) (g a)

  translated-Guarded :
      (addr len value : ℕ) (m : Machine Io) (o : Outcome ℕ)
      → translate c sim addr len store m ≡ o
      → Guarded m
          (bind (o, m) (λ p m1. bind (store_phys c sim addr p len value m1) (λ u. ends addr len))).1
  translated-Guarded addr len value m (ok p) h =
      then-Guarded m (store_phys c sim addr p len value m) (λ u. ends addr len)
        (λ u m'. ends-SameMemory (addr % len == 0) addr m')
        (store_phys-Guarded addr p len value m (translate-IsAllowed addr len store m p h))
  translated-Guarded addr len value m (threw t) h = λ a. inl refl
  translated-Guarded addr len value m aborted h = λ a. inl refl

  pub store_mem-Guarded :
      (addr len value : ℕ) (m : Machine Io) → Guarded m (store_mem c sim addr len value m).1
  unfolding store_mem
  store_mem-Guarded addr len value m =
      translated-Guarded addr len value m (translate c sim addr len store m) refl
