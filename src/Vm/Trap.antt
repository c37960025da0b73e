-- ===== src/Vm/Trap.antt =====
-- `handle_trap` of vm.c: the loop that evicts every user page, and the dispatch on the cause.
use processorfuzz.Base.{
  ℕ, zero, suc, ◌+◌, ◌*◌, ◌/◌, ◌≤◌, ◌<◌, ◌^◌, ◌≡◌, ◌≢◌, refl, ◌∙◌, ◌⊎◌, inl, inr,
}
use processorfuzz.Base.{Bool, true, false, ◌||◌, some, arith, ◌==◌, ap, sym}
use processorfuzz.Base.{ltb, ltb→lt, ltb_false→le, Bool-cases, ==_iff}
use mathlib.Core.Bool.{false≢true}
use processorfuzz.Libc.Bytes.{IsBytes}
use processorfuzz.Libc.Copied.{CopiesUp, copied-IsBytes}
use processorfuzz.Vm.{evict, evict_from, handle_trap, backing, in_user_range}
use processorfuzz.Vm.{Trapframe, trap_stvec}
use processorfuzz.Vm.Machine.{State, mapping, ok, pgsize, cause_fetch_page_fault}
use processorfuzz.Vm.Machine.{cause_load_page_fault, cause_store_page_fault}
use processorfuzz.Vm.Entry.{entry, user_rwxad}
use processorfuzz.Vm.FirstTouch.{CanCopy, page_index}
use processorfuzz.Vm.Evict.{IsFreed, evict-IsFreed, evict_unmapped}

-- Page `i` has a node, a dirty entry and a physical page that its backing page can be copied to.
pub record IsDirty (s : State) (i : ℕ) : Type 0 where
  pub number : ℕ
  pub entered : s.user_llpt i ≡ entry number user_rwxad
  pub fits : number < 2 ^ 52
  pub apart : CopiesUp (number * 2 ^ 12) (backing (i * pgsize)) pgsize

-- Every page is free or dirty, and the last free node is of no page that has a node.
pub record CanEvict (s : State) : Type 0 where
  pub bytes : IsBytes s.memory
  pub pages : (j : ℕ) → ((s.user_mapping j).addr ≡ 0) ⊎ IsDirty s j
  pub tail : (j : ℕ) → s.freelist_tail ≡ some (mapping j) → (s.user_mapping j).addr ≡ 0

-- Between the two states pages `lo` to `hi - 1` lost their nodes, no page got one, and no entry of
-- the page table changed.
pub record AreEvicted (s s' : State) (lo hi : ℕ) : Type 0 where
  pub gone : (j : ℕ) → lo ≤ j → j < hi → (s'.user_mapping j).addr ≡ 0
  pub stay : (j : ℕ) → (s.user_mapping j).addr ≡ 0 → (s'.user_mapping j).addr ≡ 0
  pub entries : s'.user_llpt ≡ s.user_llpt

IsDirty-entries : (s s' : State) (j : ℕ) → s'.user_llpt ≡ s.user_llpt → IsDirty s j → IsDirty s' j
IsDirty-entries s s' j e d = record {
  number = d.number;
  entered = ap (λ f. f j) e ∙ d.entered;
  fits = d.fits;
  apart = d.apart;
}

-- Pages of a state in which page `i` was freed.
pages_after :
    (s s' : State) (i j : ℕ)
    → IsFreed s s' i
    → s'.user_llpt ≡ s.user_llpt
    → ((s.user_mapping j).addr ≡ 0) ⊎ IsDirty s j
    → ((s'.user_mapping j).addr ≡ 0) ⊎ IsDirty s' j
pages_after s s' i j f e (inl z) = inl (ground (arith, f.others j))
pages_after s s' i j f e (inr d) = inr (IsDirty-entries s s' j e d)

mapping_injective : (i j : ℕ) → some (mapping i) ≡ some (mapping j) → i ≡ j
mapping_injective i j e = cc

module _ (s : State) (addr : ℕ) (can : CanEvict s) (user : in_user_range addr ≡ true) where
  abbrev i : ℕ
  i = addr / pgsize

  Evicts : Type 0
  Evicts = (s' : State) × (evict addr s ≡ ok tt s') × CanEvict s' × AreEvicted s s' i (i + 1)

  evict_free : (s.user_mapping i).addr ≡ 0 → Evicts
  unfolding Evicts
  evict_free z = (
    s,
    evict_unmapped s addr user z,
    can,
    record {
      gone = λ j p q. (let e : j ≡ i = omega arith in rw e z);
      stay = λ j h. h;
      entries = refl;
    },
  )

  evict_used : (s.user_mapping i).addr ≢ 0 → IsDirty s i → Evicts
  unfolding Evicts
  evict_used ne d =
      let copy : CanCopy s i d.number = record {
        fits = d.fits;
        bytes = can.bytes;
        apart = d.apart;
      } in
      let (s', runs, freed, memory, entries, _) =
        evict-IsFreed s addr d.number user ne d.entered copy (λ t. ne (can.tail i t)) in
      (
        s',
        runs,
        record {
          bytes =
              rw memory (
                copied-IsBytes s.memory (d.number * 2 ^ 12) (backing (i * pgsize)) pgsize
                  can.bytes);
          pages = λ j. pages_after s s' i j freed entries (can.pages j);
          tail = λ j t.
              (let e : i ≡ j = mapping_injective i j (sym freed.last ∙ t) in
                rw (← e) freed.no_page);
        },
        record {
          gone = λ j p q. (let e : j ≡ i = omega arith in rw e freed.no_page);
          stay = λ j h. ground (arith, freed.others j);
          entries = entries;
        },
      )

  evict_any : Evicts
  evict_any = elim (Bool-cases ((s.user_mapping i).addr == 0)) [
    | inl z ↦ evict_free ((==_iff _ _).0 z)
    | inr n ↦
        let ne : (s.user_mapping i).addr ≢ 0 = (λ z. false≢true (sym n ∙ (==_iff _ _).1 z)) in
        elim (can.pages i) [ inl z ↦ absurd (ne z) | inr d ↦ evict_used ne d ]
  ]

evict_one :
    (s : State) (i : ℕ)
    → CanEvict s
    → 1 ≤ i
    → i < 127
    → (s' : State) × (evict (i * pgsize) s ≡ ok tt s') × CanEvict s' × AreEvicted s s' i (i + 1)
unfolding Evicts
evict_one s i can lo hi = rw (page_index i) at (evict_any s (i * pgsize) can (ground arith))

AreEvicted-trans :
    (s t u : State) (lo mid hi : ℕ)
    → AreEvicted s t lo mid
    → AreEvicted t u mid hi
    → AreEvicted s u lo hi
AreEvicted-trans s t u lo mid hi a b = record {
  gone = λ j p q. elim (Bool-cases (ltb j mid)) [
    | inl h ↦ b.stay j (a.gone j p (ltb→lt j mid h))
    | inr h ↦ b.gone j (ltb_false→le j mid h) q
  ];
  stay = λ j h. b.stay j (a.stay j h);
  entries = b.entries ∙ a.entries;
}

evict_from-AreEvicted :
    (left : ℕ) (s : State) (i hi : ℕ)
    → CanEvict s
    → 1 ≤ i
    → i + left ≡ hi
    → hi ≤ 127
    → (s' : State) × (evict_from left i s ≡ ok tt s') × AreEvicted s s' i hi
unfolding evict_from
evict_from-AreEvicted zero s i hi can lo e top =
    (s, refl, record { gone = λ j p q. absurd (omega arith); stay = λ j h. h; entries = refl })
evict_from-AreEvicted (suc left) s i hi can lo e top =
    let (t, runs, can', one) = evict_one s i can lo (omega arith) in
    let (u, runs', rest) =
      evict_from-AreEvicted left t (i + 1) hi can' (omega arith) (omega arith) top in
    (u, cc (runs, runs'), AreEvicted-trans s t u i (i + 1) hi one rest)

abbrev is_page_fault : ℕ → Bool
is_page_fault c =
    c == cause_fetch_page_fault || c == cause_load_page_fault || c == cause_store_page_fault

-- For a cause other than the three page faults, from a state in which every page is free or dirty,
-- `handle_trap` evicts pages 1 to 126 without a failed assertion or a fault, changes no entry of the
-- page table, and goes to `trap_stvec`.
pub handle_trap-AreEvicted :
    (seed : ℕ) (tf : Trapframe) (s : State)
    → is_page_fault tf.cause ≡ false
    → CanEvict s
    → (s' : State) × (handle_trap seed tf s ≡ ok trap_stvec s') × AreEvicted s s' 1 127
unfolding handle_trap
handle_trap-AreEvicted seed tf s other can =
    let (t, runs, gone) = evict_from-AreEvicted 126 s 1 127 can (omega arith) refl (omega arith) in
    (t, rw other (cc runs), gone)
