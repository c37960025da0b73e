-- ===== src/Vm/Marks.antt =====
-- `handle_fault` of vm.c on a page that has an entry: the A and D bits.
use processorfuzz.Base.{ℕ, ◌*◌, ◌/◌, ◌^◌, ◌<◌, ◌≡◌, ◌≢◌, refl, ◌∙◌}
use processorfuzz.Base.{
  Bool, true, false, not, arith, ◌==◌, ap, inl, inr, Bool-cases, if◌then◌else◌, bit_or, bit_and,
}
use processorfuzz.Base.Bits.{bit_and_low}
use processorfuzz.Mmu.{Access, load, store, user_mode, walk_step, page, denied, has, pte_a, pte_d}
use processorfuzz.Mmu.Leaf.{walk_step_low, at_page}
use processorfuzz.Vm.{handle_fault, mark_page, in_user_range, set_pte}
use processorfuzz.Vm.Machine.{State, update, ok, assert_failed, pgsize}
use processorfuzz.Vm.Machine.{cause_store_page_fault}
use processorfuzz.Vm.Entry.{entry, user_rwx, user_rwxad, or_flag}

pub update_same {ℓ} : {A : Type ℓ} (f : ℕ → A) (i : ℕ) (v : A) → update f i v i ≡ v
update_same f i v = let e : (i == i) ≡ true = ground arith in rw e

pub has-entry : (q f m : ℕ) → f < 2 ^ 10 → m < 2 ^ 10 → has (entry q f) m ≡ not (bit_and f m == 0)
unfolding has
has-entry q f m h p = rw (bit_and_low 10 q f m h p)

-- The start of a user page is a user address.
pub user_page_start :
    (addr : ℕ) → in_user_range addr ≡ true → in_user_range (addr / pgsize * pgsize) ≡ true
user_page_start addr h = ground arith

module _ (seed addr cause : ℕ) (s : State) (q f : ℕ) (user : in_user_range addr ≡ true)
    (e : s.user_llpt (addr / pgsize) ≡ entry q f) (low : f < 2 ^ 10) (flags : f ≢ 0) where
  abbrev i : ℕ
  i = addr / pgsize

  handle_fault-mark_page : handle_fault seed addr cause s ≡ mark_page i cause s
  unfolding handle_fault
  handle_fault-mark_page = let t : (s.user_llpt i == 0) ≡ false = ground arith in rw (user, t)

  -- With A and D set, any fault fails an assertion.
  pub handle_fault-accessed_dirty :
      (bit_and f pte_a == 0) ≡ false
      → (bit_and f pte_d == 0) ≡ false
      → handle_fault seed addr cause s ≡ assert_failed s
  unfolding mark_page
  handle_fault-accessed_dirty a d =
      handle_fault-mark_page
      ∙ rw (e, has-entry q f pte_a low (omega arith), a, has-entry q f pte_d low (omega arith), d)

  -- With A clear, a fault sets A.
  handle_fault-sets_accessed :
      (f' : ℕ)
      → (bit_and f pte_a == 0) ≡ true
      → bit_or f pte_a ≡ f'
      → handle_fault seed addr cause s ≡ ok tt (set_pte i (entry q f') s)
  unfolding mark_page
  handle_fault-sets_accessed f' a g =
      handle_fault-mark_page
      ∙ rw (e, has-entry q f pte_a low (omega arith), a, or_flag q f pte_a f' low (omega arith) g)

  -- With A set and D clear, a store fault sets D, and any other fails an assertion.
  handle_fault-sets_dirty :
      (f' : ℕ)
      → (bit_and f pte_a == 0) ≡ false
      → (bit_and f pte_d == 0) ≡ true
      → bit_or f pte_d ≡ f'
      → handle_fault seed addr cause s ≡ (
          if cause == cause_store_page_fault
          then ok tt (set_pte i (entry q f') s)
          else assert_failed s)
  unfolding mark_page
  handle_fault-sets_dirty f' a d g =
      handle_fault-mark_page ∙ elim (Bool-cases (cause == cause_store_page_fault)) [
        | inl c ↦ rw (
          e,
          has-entry q f pte_a low (omega arith),
          a,
          has-entry q f pte_d low (omega arith),
          d,
          c,
          or_flag q f pte_d f' low (omega arith) g,
        )
        | inr c ↦ rw (
          e,
          has-entry q f pte_a low (omega arith),
          a,
          has-entry q f pte_d low (omega arith),
          d,
          c,
        )
      ]

-- The user's access of this type at the address reaches physical page `q`, by the walk's last
-- round on the page's entry; or it is refused.
abbrev pub UserReaches : Access → State → ℕ → ℕ → Type 0
UserReaches type s addr q =
    (sum mxr : Bool)
    → walk_step type user_mode sum mxr addr 0 (s.user_llpt (addr / pgsize)) ≡ page (q * 2 ^ 12)

abbrev pub UserDenied : Access → State → ℕ → Type 0
UserDenied type s addr =
    (sum mxr : Bool)
    → walk_step type user_mode sum mxr addr 0 (s.user_llpt (addr / pgsize)) ≡ denied

-- The life of a page that `handle_fault` mapped.
pub record Life (s : State) (addr q : ℕ) (c : ℕ) : Type 0 where
  pub fresh : UserDenied load s addr × UserDenied store s addr
  pub accessed : State
  pub first : (seed : ℕ) → handle_fault seed addr c s ≡ ok tt accessed
  pub readable : UserReaches load accessed addr q × UserDenied store accessed addr
  pub no_reread :
      (seed d : ℕ)
      → d ≢ cause_store_page_fault
      → handle_fault seed addr d accessed ≡ assert_failed accessed
  pub dirty : State
  pub second : (seed : ℕ) → handle_fault seed addr cause_store_page_fault accessed ≡ ok tt dirty
  pub writable : UserReaches load dirty addr q × UserReaches store dirty addr q
  pub no_third : (seed d : ℕ) → handle_fault seed addr d dirty ≡ assert_failed dirty

module _ (s : State) (addr q : ℕ) (f : ℕ) (e : s.user_llpt (addr / pgsize) ≡ entry q f) where
  at_entry :
      (type : Access) (sum mxr : Bool)
      → walk_step type user_mode sum mxr addr 0 (s.user_llpt (addr / pgsize))
        ≡ walk_step type user_mode sum mxr addr 0 (entry q f)
  at_entry type sum mxr = ap (walk_step type user_mode sum mxr addr 0) e

  reaches :
      (type : Access)
      → f < 2 ^ 10
      → q < 2 ^ 52
      → ((sum mxr : Bool)
          → at_page q (walk_step type user_mode sum mxr addr 0 f) ≡ page (q * 2 ^ 12))
      → UserReaches type s addr q
  reaches type low fits allowed sum mxr =
      at_entry type sum mxr
      ∙ walk_step_low type user_mode sum mxr addr q f low fits
      ∙ allowed sum mxr

  refuses :
      (type : Access)
      → f < 2 ^ 10
      → q < 2 ^ 52
      → ((sum mxr : Bool) → at_page q (walk_step type user_mode sum mxr addr 0 f) ≡ denied)
      → UserDenied type s addr
  refuses type low fits not_allowed sum mxr =
      at_entry type sum mxr
      ∙ walk_step_low type user_mode sum mxr addr q f low fits
      ∙ not_allowed sum mxr

-- A page with the entry that a first touch leaves can be neither read nor written by the user. The
-- next fault sets A, and the user can read the page; a store fault then sets D, and the user can
-- write it too. A fault other than a store's on the readable page, and any on the writable one, fails
-- an assertion.
pub handle_fault-Life :
    (s : State) (addr q c : ℕ)
    → in_user_range addr ≡ true
    → q < 2 ^ 52
    → s.user_llpt (addr / pgsize) ≡ entry q user_rwx
    → Life s addr q c
unfolding walk_step has
handle_fault-Life s addr q c user fits e =
    let i = addr / pgsize in
    let accessed = set_pte i (entry q 0x5f) s in
    let dirty = set_pte i (entry q user_rwxad) accessed in
    let e₁ : accessed.user_llpt i ≡ entry q 0x5f = update_same s.user_llpt i (entry q 0x5f) in
    let e₂ : dirty.user_llpt i ≡ entry q user_rwxad =
      update_same accessed.user_llpt i (entry q user_rwxad) in
    record {
      fresh = (
        refuses s addr q user_rwx e load (omega arith) fits (λ sum mxr. refl),
        refuses s addr q user_rwx e store (omega arith) fits (λ sum mxr. refl),
      );
      accessed = accessed;
      first = λ seed.
          handle_fault-sets_accessed seed addr c s q user_rwx user e (omega arith) (omega arith)
            0x5f refl refl;
      readable = (
        reaches accessed addr q 0x5f e₁ load (omega arith) fits (λ sum mxr. refl),
        refuses accessed addr q 0x5f e₁ store (omega arith) fits (λ sum mxr. refl),
      );
      no_reread = λ seed d ne.
          handle_fault-sets_dirty seed addr d accessed q 0x5f user e₁ (omega arith) (omega arith)
            user_rwxad refl refl refl
          ∙ (let t : (d == cause_store_page_fault) ≡ false = ground arith in rw t);
      dirty = dirty;
      second = λ seed.
          handle_fault-sets_dirty seed addr cause_store_page_fault accessed q 0x5f user e₁
            (omega arith) (omega arith) user_rwxad refl refl refl;
      writable = (
        reaches dirty addr q user_rwxad e₂ load (omega arith) fits (λ sum mxr. refl),
        reaches dirty addr q user_rwxad e₂ store (omega arith) fits (λ sum mxr. refl),
      );
      no_third = λ seed d.
          handle_fault-accessed_dirty seed addr d dirty q user_rwxad user e₂ (omega arith)
            (omega arith) refl refl;
    }
