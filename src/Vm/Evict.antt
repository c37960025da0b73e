-- ===== src/Vm/Evict.antt =====
-- `evict` of vm.c.
use processorfuzz.Base.{ℕ, ◌+◌, ◌-◌, ◌*◌, ◌/◌, ◌^◌, ◌<◌, ◌≡◌, ◌≢◌, refl, ◌∙◌, sym, inl, inr}
use processorfuzz.Base.{Bool, true, false, Option, none, some, arith, ◌==◌, ap, if◌then◌else◌}
use processorfuzz.Base.{fun_ext, Bool-cases}
use processorfuzz.Libc.Bytes.{Memory, IsBytes, ℤ, diff}
use processorfuzz.Libc.Copied.{copied}
use processorfuzz.Libc.Compare.{FirstDifference, same, at, Agree, memcmp-FirstDifference}
use processorfuzz.Mmu.{Access, load, store, supervisor_mode, walk_step, page, has, pte_a, pte_d}
use processorfuzz.Mmu.Leaf.{walk_step_low, at_page}
use processorfuzz.Vm.{
  evict, restore_page, same_page, user_page, append_behind, append_free, backing, in_user_range,
  is_zero, unmap,
}
use processorfuzz.Vm.Machine.{State, Ref, mapping, node, ok, pgsize}
use processorfuzz.Vm.Entry.{entry, user_rwxad}
use processorfuzz.Vm.Marks.{has-entry}
use processorfuzz.Vm.FirstTouch.{copy_page_lem, user_page_ok, page_index, CanCopy}

copied_same : (m : Memory) (a b n : ℕ) → Agree m a b n → copied m a b n ≡ m
unfolding copied
copied_same m a b n h = fun_ext λ x. ground (arith, h (x - a))

is_zero-diff : (x y : ℕ) → x ≢ y → is_zero (diff x y) ≡ false
is_zero-diff x y h = ground arith

is_zero-Agree :
    (m : Memory) (a b n : ℕ) (r : ℤ) → FirstDifference m a b n r → is_zero r ≡ true → Agree m a b n
is_zero-Agree m a b n r (same h z) e = h
is_zero-Agree m a b n r (at i lt h ne z) e = cc (is_zero-diff (m (a + i)) (m (b + i)) ne, z)

-- `memcmp` on two pages finds whether they are the same.
same_page_lem :
    (s : State) (a b : ℕ)
    → IsBytes s.memory
    → (t : Bool) × (same_page a b s ≡ ok t s) × (t ≡ true → copied s.memory a b pgsize ≡ s.memory)
unfolding same_page
same_page_lem s a b bytes =
    let (r, e, d) = memcmp-FirstDifference 4097 s.memory a b pgsize bytes (omega arith) in
    (
      is_zero r,
      rw (e, same_page),
      λ z. copied_same s.memory a b pgsize (is_zero-Agree s.memory a b pgsize r d z),
    )

-- With SUM set, the supervisor reaches a page that has every flag.
reaches_dirty :
    (type : Access) (s : State) (i q : ℕ)
    → ((addr : ℕ)
        → at_page q (walk_step type supervisor_mode true false addr 0 user_rwxad)
          ≡ page (q * 2 ^ 12))
    → s.sum ≡ true
    → q < 2 ^ 52
    → s.user_llpt i ≡ entry q user_rwxad
    → user_page type (i * pgsize) s ≡ ok (q * 2 ^ 12) s
reaches_dirty type s i q allowed sum fits e =
    user_page_ok type s i (entry q user_rwxad) (q * 2 ^ 12) e (
      ap (λ b. walk_step type supervisor_mode b false (i * pgsize) 0 (entry q user_rwxad)) sum
      ∙ walk_step_low type supervisor_mode true false (i * pgsize) q user_rwxad (omega arith) fits
      ∙ allowed (i * pgsize))

module _ (s : State) (i q : ℕ) (sum : s.sum ≡ true) (e : s.user_llpt i ≡ entry q user_rwxad)
    (can : CanCopy s i q) where
  abbrev restored : State
  restored = record s { memory = copied s.memory (q * 2 ^ 12) (backing (i * pgsize)) pgsize }

  restored_if_same :
      copied s.memory (q * 2 ^ 12) (backing (i * pgsize)) pgsize ≡ s.memory → s ≡ restored
  restored_if_same h = λ k. record s { memory = sym h k }

  -- Whether or not the pages differ, the page ends as a copy of its backing page.
  restore_page_dirty : restore_page (i * pgsize) s ≡ ok tt restored
  unfolding restore_page walk_step has
  restore_page_dirty =
      let reads = reaches_dirty load s i q (λ addr. refl) sum can.fits e in
      let writes = reaches_dirty store s i q (λ addr. refl) sum can.fits e in
      let (t, c, h) = same_page_lem s (q * 2 ^ 12) (backing (i * pgsize)) can.bytes in
      let dirty : has (s.user_llpt (i * pgsize / pgsize)) pte_d ≡ true =
        ap (λ j. has (s.user_llpt j) pte_d) (page_index i)
        ∙ ap (λ pte. has pte pte_d) e
        ∙ has-entry q user_rwxad pte_d (omega arith) (omega arith) in
      elim (Bool-cases t) [
        | inl y ↦ cc (reads, c, y, restored_if_same (h y))
        | inr n ↦ cc (
          reads,
          c,
          n,
          dirty,
          writes,
          copy_page_lem s (q * 2 ^ 12) (backing (i * pgsize)) can.bytes can.apart,
        )
      ]

-- The node behind an end of the list: the one that the last node links to, or the first of an empty
-- list.
abbrev pub LinksTo : State → Option Ref → Ref → Type 0
LinksTo s none r = s.freelist_head ≡ some r
LinksTo s (some (node k)) r = (s.freelist_nodes k).next ≡ some r
LinksTo s (some (mapping k)) r = (s.user_mapping k).next ≡ some r

-- What the end of `evict` does to the free list and to the node, and what it leaves alone.
pub record IsFreed (s s' : State) (i : ℕ) : Type 0 where
  pub no_page : (s'.user_mapping i).addr ≡ 0
  pub last : s'.freelist_tail ≡ some (mapping i)
  pub behind : LinksTo s' s.freelist_tail (mapping i)
  pub link : (s'.user_mapping i).next ≡ (s.user_mapping i).next
  pub head :
      s'.freelist_head ≡ elim s.freelist_tail [ none ↦ some (mapping i) | some t ↦ s.freelist_head ]
  pub others : (j : ℕ) → (s'.user_mapping j).addr ≡ (if j == i then 0 else (s.user_mapping j).addr)

append_behind-IsFreed :
    (t : Option Ref) (s : State) (i : ℕ)
    → s.freelist_tail ≡ t
    → t ≢ some (mapping i)
    → IsFreed s (append_behind t i (unmap i s)) i
unfolding append_behind
append_behind-IsFreed none s i e ne = record {
  no_page = ground arith;
  last = refl;
  behind = rw e (ground arith);
  link = ground arith;
  head = rw e;
  others = λ j. ground arith;
}
append_behind-IsFreed (some (node k)) s i e ne = record {
  no_page = ground arith;
  last = refl;
  behind = rw e (ground arith);
  link = ground arith;
  head = rw e;
  others = λ j. ground arith;
}
append_behind-IsFreed (some (mapping k)) s i e ne =
    let apart : k ≢ i = (λ z. ne (ap (λ j. some (mapping j)) z)) in
    record {
      no_page = ground arith;
      last = refl;
      behind = rw e (ground arith);
      link = ground arith;
      head = rw e;
      others = λ j. ground arith;
    }

append_behind_memory :
    (t : Option Ref) (s : State) (i : ℕ)
    → ((append_behind t i s).memory ≡ s.memory)
      × ((append_behind t i s).user_llpt ≡ s.user_llpt)
      × ((append_behind t i s).sum ≡ s.sum)
unfolding append_behind
append_behind_memory none s i = (refl, refl, refl)
append_behind_memory (some (node k)) s i = (refl, refl, refl)
append_behind_memory (some (mapping k)) s i = (refl, refl, refl)

module _ (s : State) (addr q : ℕ) (user : in_user_range addr ≡ true)
    (mapped : (s.user_mapping (addr / pgsize)).addr ≢ 0)
    (e : s.user_llpt (addr / pgsize) ≡ entry q user_rwxad) (can : CanCopy s (addr / pgsize) q) where
  abbrev i : ℕ
  i = addr / pgsize

  abbrev quiet : State
  quiet = record s {
    memory = copied s.memory (q * 2 ^ 12) (backing (i * pgsize)) pgsize;
    sum = false;
  }

  evict_dirty : evict addr s ≡ ok tt (append_free i (unmap i quiet))
  unfolding evict
  evict_dirty =
      let t : ((s.user_mapping i).addr == 0) ≡ false = ground arith in
      let a : has (s.user_llpt i) pte_a ≡ true =
        ap (λ pte. has pte pte_a) e ∙ has-entry q user_rwxad pte_a (omega arith) (omega arith) in
      rw (user, t, a)
        (cc (
          restore_page_dirty (record s { sum = true }) i q refl e
            (record { fits = can.fits; bytes = can.bytes; apart = can.apart })))

  -- Evicting a dirty page copies its backing page over it, whatever the user wrote there, and does
  -- not write to the backing page; the page keeps its entry. Its node becomes the last one, and
  -- the last free node before links to it, or the head of the list if there was none; it has no
  -- physical page, and the link that it had before.
  pub evict-IsFreed :
      s.freelist_tail ≢ some (mapping i)
      → (s' : State) × (evict addr s ≡ ok tt s')
        × IsFreed s s' i
        × (s'.memory ≡ copied s.memory (q * 2 ^ 12) (backing (i * pgsize)) pgsize)
        × (s'.user_llpt ≡ s.user_llpt)
        × (s'.sum ≡ false)
  unfolding append_free
  evict-IsFreed ne =
      let f = append_behind-IsFreed s.freelist_tail quiet i refl ne in
      let m = append_behind_memory s.freelist_tail (unmap i quiet) i in
      (
        append_free i (unmap i quiet),
        evict_dirty,
        record {
          no_page = f.no_page;
          last = f.last;
          behind = f.behind;
          link = f.link;
          head = f.head;
          others = f.others;
        },
        m.0,
        m.1,
        m.2,
      )

-- A page without a node is left alone.
pub evict_unmapped :
    (s : State) (addr : ℕ)
    → in_user_range addr ≡ true
    → (s.user_mapping (addr / pgsize)).addr ≡ 0
    → evict addr s ≡ ok tt s
unfolding evict
evict_unmapped s addr user e =
    let t : ((s.user_mapping (addr / pgsize)).addr == 0) ≡ true = ground arith in rw (user, t)
