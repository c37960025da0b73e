-- ===== src/Vm/FirstTouch.antt =====
-- `handle_fault` of vm.c on a page that has no entry yet.
use processorfuzz.Base.{ℕ, ◌*◌, ◌/◌, ◌%◌, ◌^◌, ◌<◌, ◌≡◌, ◌≢◌, refl, ◌∙◌}
use processorfuzz.Base.{true, false, List, ◌∷◌, arith, ◌==◌, ap}
use processorfuzz.Base.{fun_ext, ==_iff}
use processorfuzz.Libc.Bytes.{IsBytes}
use processorfuzz.Libc.Copied.{copied, CopiesUp}
use processorfuzz.Libc.Copy.{memcpy-eq-copied}
use processorfuzz.Mmu.{Access, store, supervisor_mode, walk_step, page, denied}
use processorfuzz.Vm.{handle_fault, map_page, pop_free, new_pte, user_page, copy_page, backing}
use processorfuzz.Vm.{in_user_range, cause_of}
use processorfuzz.Vm.Lfsr.{lfsr63}
use processorfuzz.Vm.Machine.{
  State, Ref, get, update, ok, page_faulted, assert_failed, pgsize, FreeNode,
  cause_store_page_fault,
}
use processorfuzz.Vm.Entry.{entry, user_rwx, user_rwxad, new_pte_zero, new_pte_other, with_ad}
use processorfuzz.Vm.Entry.{store_rwxad, store_invalid}
use processorfuzz.Vm.Marks.{handle_fault-accessed_dirty, user_page_start, update_same}
use processorfuzz.Vm.FreeList.{Chain, Chain-update, has_mapping, has_mapping_tail, get-pop_free}

-- The physical page `q` can take a copy of the page that backs page `i`.
pub record CanCopy (s : State) (i q : ℕ) : Type 0 where
  pub fits : q < 2 ^ 52
  pub bytes : IsBytes s.memory
  pub apart : CopiesUp (q * 2 ^ 12) (backing (i * pgsize)) pgsize

pub copy_page_lem :
    (s : State) (to from : ℕ)
    → IsBytes s.memory
    → CopiesUp to from pgsize
    → copy_page to from s ≡ ok tt (record s { memory = copied s.memory to from pgsize })
unfolding copy_page
copy_page_lem s to from b up =
    rw (memcpy-eq-copied 4097 s.memory to from pgsize b up (omega arith), copy_page)

pub page_index : (i : ℕ) → i * pgsize / pgsize ≡ i
page_index i = omega arith

update_twice {ℓ} :
    {A : Type ℓ} (f : ℕ → A) (i : ℕ) (v w : A) → update (update f i v) i w ≡ update f i w
update_twice f i v w = fun_ext λ j. ground arith

pub user_page_ok :
    (type : Access) (s : State) (i pte p : ℕ)
    → s.user_llpt i ≡ pte
    → walk_step type supervisor_mode s.sum false (i * pgsize) 0 pte ≡ page p
    → user_page type (i * pgsize) s ≡ ok p s
unfolding user_page
user_page_ok type s i pte p e w = rw (page_index i, user_page) (rw (e, w))

user_page_fault :
    (s : State) (i pte : ℕ)
    → s.user_llpt i ≡ pte
    → walk_step store supervisor_mode s.sum false (i * pgsize) 0 pte ≡ denied
    → user_page store (i * pgsize) s ≡ page_faulted (cause_of store) (i * pgsize) s
unfolding user_page
user_page_fault s i pte e w = rw (page_index i, user_page) (rw (e, w))

-- The state after `map_page` with the node `r`, which stands for the physical page `q`.
abbrev mapped : State → ℕ → Ref → ℕ → State
mapped s i r q = record s {
  user_llpt = update s.user_llpt i (entry q user_rwx);
  user_mapping = update s.user_mapping i (get s r);
  memory = copied s.memory (q * 2 ^ 12) (backing (i * pgsize)) pgsize;
  sum = false;
}

-- The state in which the copy of the page is made.
abbrev copying : State → ℕ → Ref → ℕ → State
copying s i r pte = record s {
  user_llpt = update s.user_llpt i pte;
  user_mapping = update s.user_mapping i (get s r);
  sum = true;
}

new_pte_at : (addr q : ℕ) → addr ≡ q * 2 ^ 12 → q < 2 ^ 52 → new_pte addr 0 ≡ entry q user_rwx
new_pte_at addr q e h =
    let n : addr / 2 ^ 12 ≡ q = omega arith in
    new_pte_zero addr (omega arith) ∙ ap (λ x. entry x user_rwx) n

map_page_ok :
    (s : State) (i q : ℕ) (r : Ref)
    → (get s r).addr ≡ q * 2 ^ 12
    → (s.user_mapping i).addr ≡ 0
    → CanCopy s i q
    → map_page 0 i r s ≡ ok tt (mapped s i r q)
unfolding map_page
map_page_ok s i q r e free can =
    let unused : ((s.user_mapping i).addr == 0) ≡ true = (==_iff _ _).1 free in
    let there : user_page store (i * pgsize) (copying s i r (entry q user_rwxad))
        ≡ ok (q * 2 ^ 12) (copying s i r (entry q user_rwxad)) =
      user_page_ok store (copying s i r (entry q user_rwxad)) i (entry q user_rwxad) (q * 2 ^ 12)
        (update_same s.user_llpt i (entry q user_rwxad)) (store_rwxad (i * pgsize) q can.fits) in
    rw
      (
        new_pte_at (get s r).addr q e can.fits,
        with_ad q user_rwx user_rwxad (omega arith) (omega arith) refl,
        unused,
      )
      (cc (
        there,
        copy_page_lem (copying s i r (entry q user_rwxad)) (q * 2 ^ 12) (backing (i * pgsize))
            can.bytes can.apart,
        update_twice s.user_llpt i (entry q user_rwxad) (entry q user_rwx),
      ))

-- With any other flags the supervisor's own copy faults at the page, whose entry is left with A
-- and D and no other flag.
map_page_fault :
    (s : State) (random i q : ℕ) (r : Ref)
    → (get s r).addr ≡ q * 2 ^ 12
    → (s.user_mapping i).addr ≡ 0
    → q < 2 ^ 52
    → random < 10
    → random ≢ 0
    → map_page random i r s
      ≡ page_faulted (cause_of store) (i * pgsize) (copying s i r (entry q 0xc0))
unfolding map_page
map_page_fault s random i q r e free fits lt ne =
    let unused : ((s.user_mapping i).addr == 0) ≡ true = (==_iff _ _).1 free in
    let n : (get s r).addr / 2 ^ 12 ≡ q = omega arith in
    rw
      (
        new_pte_other (get s r).addr random (omega arith) lt ne,
        n,
        with_ad q 0 0xc0 (omega arith) (omega arith) refl,
        unused,
      )
      (cc (
        user_page_fault (copying s i r (entry q 0xc0)) i (entry q 0xc0)
          (update_same s.user_llpt i (entry q 0xc0)) (store_invalid (i * pgsize) q fits)))

-- A first touch: the page has no entry and no node, and the free list is `r` and then `rs`,
-- none of them the page's own entry of `user_mapping`.
pub record IsFresh (s : State) (addr : ℕ) (r : Ref) (q : ℕ) (rs : List Ref) : Type 0 where
  pub in_range : in_user_range addr ≡ true
  pub no_entry : s.user_llpt (addr / pgsize) ≡ 0
  pub no_node : (s.user_mapping (addr / pgsize)).addr ≡ 0
  pub chain : Chain s s.freelist_head (r ∷ rs)
  pub apart : has_mapping (addr / pgsize) (r ∷ rs) ≡ false
  pub frame : (get s r).addr ≡ q * 2 ^ 12
  pub can_copy : CanCopy s (addr / pgsize) q

-- What a first touch leaves behind.
pub record IsMapped (s s' : State) (i : ℕ) (r : Ref) (q : ℕ) (rs : List Ref) : Type 0 where
  pub entries : s'.user_llpt ≡ update s.user_llpt i (entry q user_rwx)
  pub nodes : s'.user_mapping ≡ update s.user_mapping i (get s r)
  pub contents : s'.memory ≡ copied s.memory (q * 2 ^ 12) (backing (i * pgsize)) pgsize
  pub chain : Chain s' s'.freelist_head rs
  pub no_sum : s'.sum ≡ false

module _ (seed cause : ℕ) {s : State} {addr : ℕ} {r : Ref} {q : ℕ} {rs : List Ref}
    (fresh : IsFresh s addr r q rs) where
  abbrev i : ℕ
  i = addr / pgsize

  abbrev popped : State
  popped = pop_free r s

  no_entry_test : (s.user_llpt i == 0) ≡ true
  no_entry_test = (==_iff _ _).1 fresh.no_entry

  popped_frame : (get popped r).addr ≡ q * 2 ^ 12
  popped_frame = ap (λ (n : FreeNode). n.addr) (get-pop_free s r r) ∙ fresh.frame

  handle_fault_pops : handle_fault seed addr cause s ≡ map_page (lfsr63 seed % 10) i r popped
  unfolding handle_fault
  handle_fault_pops = rw (fresh.in_range, no_entry_test) (cc (fresh.chain.0))

  abbrev after : State
  after = mapped popped i r q

  after-Chain : Chain after after.freelist_head rs
  unfolding pop_free
  after-Chain =
      Chain-update s after i (get s r) (get s r).next rs (λ j. refl)
        (λ j. ap (λ n. update s.user_mapping i n j) (get-pop_free s r r))
        (has_mapping_tail i r rs fresh.apart) fresh.chain.1

  popped_free : (popped.user_mapping i).addr ≡ 0
  unfolding pop_free
  popped_free = fresh.no_node

  popped_copy : CanCopy popped i q
  unfolding pop_free
  popped_copy = record {
    fits = fresh.can_copy.fits;
    bytes = fresh.can_copy.bytes;
    apart = fresh.can_copy.apart;
  }

  -- On a first touch for which the drawn number is zero, `handle_fault` takes the first free node,
  -- gives the page an entry for the node's physical page with V, R, W, X and U set and A and D
  -- clear, fills that physical page with the backing page, and leaves the other nodes on the list.
  pub handle_fault-IsMapped :
      lfsr63 seed % 10 ≡ 0
      → (s' : State) × (handle_fault seed addr cause s ≡ ok tt s') × IsMapped s s' i r q rs
  unfolding pop_free
  handle_fault-IsMapped zero_drawn = (
    after,
    handle_fault_pops
        ∙ ap (λ n. map_page n i r popped) zero_drawn
        ∙ map_page_ok popped i q r popped_frame popped_free popped_copy,
    record {
      entries = refl;
      nodes = ap (update s.user_mapping i) (get-pop_free s r r);
      contents = refl;
      chain = after-Chain;
      no_sum = refl;
    },
  )

  -- On a first touch for which the drawn number is not zero, the supervisor's copy into the new page
  -- takes a store page fault at the page, because the new entry has none of V, R, W, X and U; and
  -- the handler's second run, for that fault, ends in a failed assertion.
  pub handle_fault-page_faulted :
      (seed' : ℕ)
      → lfsr63 seed % 10 ≢ 0
      → (s' : State) × (handle_fault seed addr cause s
          ≡ page_faulted cause_store_page_fault (i * pgsize) s')
        × (s'.user_llpt i ≡ entry q 0xc0)
        × (handle_fault seed' (i * pgsize) cause_store_page_fault s' ≡ assert_failed s')
  handle_fault-page_faulted seed' drawn =
      let stopped = copying popped i r (entry q 0xc0) in
      let left : stopped.user_llpt i ≡ entry q 0xc0 =
        update_same popped.user_llpt i (entry q 0xc0) in
      (
        stopped,
        handle_fault_pops
            ∙ map_page_fault popped (lfsr63 seed % 10) i q r popped_frame popped_free
                fresh.can_copy.fits (omega arith) drawn,
        left,
        handle_fault-accessed_dirty seed' (i * pgsize) cause_store_page_fault stopped q 0xc0
            (user_page_start addr fresh.in_range) (rw (page_index i) left) (omega arith)
            (omega arith) refl refl,
      )
