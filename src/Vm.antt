-- ===== src/Vm.antt =====
-- Template/include/v/vm.c: the fault handler of the virtual-memory test environment, on RV64
-- with Sv39. The first 127 pages of user memory are backed by the pages from DRAM_BASE on; a page
-- that is touched gets a physical page of its own from the free list. The supervisor reaches a user
-- page through the page-table walk of `Mmu`, and the backing page through the kernel megapage. A
-- page is copied by `memcpy` of string.c, at the physical addresses of the two pages.
pub mod Lfsr
pub mod Machine
pub mod Entry
pub mod FreeList
pub mod Marks
pub mod FirstTouch
pub mod Evict
pub mod Trap
pub mod Boot
pub mod Torture
use Machine.{State, Outcome, ok, assert_failed, page_faulted, out_of_fuel}
use processorfuzz.Base.{ℕ, zero, suc, ◌+◌, ◌-◌, ◌*◌, ◌/◌, ◌%◌, ◌^◌, bit_and, bit_or}
use processorfuzz.Base.{Bool, true, false, not, ◌&&◌, ◌||◌, Option, none, some, ltb, leb, ◌==◌}
use processorfuzz.Base.{if◌then◌else◌}
use processorfuzz.Libc.{memcpy, memcmp}
use processorfuzz.Libc.Bytes.{Memory, ℤ, pos, negsuc}
use processorfuzz.Mmu.{Access, fetch, load, store, supervisor_mode, walk_step, table, page, denied}
use processorfuzz.Mmu.{pte_v, pte_u, pte_r, pte_w, pte_x, pte_a, pte_d, pte_ppn_shift, pgshift, has}
use Lfsr.{lfsr63}
use Machine.{max_test_pages, pgsize, dram_base, Ref, mapping, node, FreeNode, update, get, put, M}
use Machine.{cause_fetch_page_fault, cause_load_page_fault, cause_store_page_fault}
use Machine.{pure, ◌>>=◌, ◌>>◌, read, write, assert}

-- `set_csr(sstatus, SSTATUS_SUM)` and `clear_csr`.
abbrev set_sum : Bool → M (Unit {0})
set_sum b s = ok tt (record s { sum = b })

abbrev pub cause_of : Access → ℕ
cause_of fetch = cause_fetch_page_fault
cause_of load = cause_load_page_fault
cause_of store = cause_store_page_fault

-- The physical page that the supervisor reaches at a user address, or its page fault there.
pub user_page : Access → ℕ → M ℕ
user_page type addr s =
    elim (walk_step type supervisor_mode s.sum false addr 0 (s.user_llpt (addr / pgsize))) [
      | page p ↦ ok p s
      | table _ ↦ page_faulted (cause_of type) addr s
      | denied ↦ page_faulted (cause_of type) addr s
    ]

-- `uva2kva(addr)`, as the physical address that the kernel megapage maps it to.
abbrev pub backing : ℕ → ℕ
backing addr = dram_base + addr

-- More than the bytes of a page.
abbrev page_fuel : ℕ
page_fuel = 4097

pub copy_page : ℕ → ℕ → M (Unit {0})
copy_page to from s = elim (memcpy page_fuel s.memory to from pgsize) [
  | none ↦ out_of_fuel
  | some (m, _) ↦ ok tt (record s { memory = m })
]

abbrev pub is_zero : ℤ → Bool
is_zero (pos n) = n == 0
is_zero (negsuc n) = false

pub same_page : ℕ → ℕ → M Bool
same_page a b s = elim (memcmp page_fuel s.memory a b pgsize) [
  | none ↦ out_of_fuel
  | some r ↦ ok (is_zero r) s
]

abbrev pub in_user_range : ℕ → Bool
in_user_range addr = leb pgsize addr && ltb addr (max_test_pages * pgsize)

-- `if (memcmp(…)) { assert(… & PTE_D); memcpy(…); }` of `evict`.
pub restore_page : ℕ → M (Unit {0})
restore_page addr = do
  from ← user_page load addr
  same ← same_page from (backing addr)
  if same then pure tt else do
    s ← read
    assert (has (s.user_llpt (addr / pgsize)) pte_d)
    to ← user_page store addr
    copy_page to (backing addr)

-- The end of `evict`: its entry of `user_mapping` goes behind the last free node.
pub append_behind : Option Ref → ℕ → State → State
append_behind none i s = record s {
  freelist_head = some (mapping i);
  freelist_tail = some (mapping i);
}
append_behind (some t) i s =
    let s' = put s t (record (get s t) { next = some (mapping i) }) in
    record s' { freelist_tail = some (mapping i) }

pub append_free : ℕ → State → State
unfolding append_behind
append_free i s = append_behind s.freelist_tail i s

abbrev pub unmap : ℕ → State → State
unmap i s = record s {
  user_mapping = update s.user_mapping i (record (s.user_mapping i) { addr = 0 });
}

unfoldable pub evict : ℕ → M (Unit {0})
unfolding append_free
evict addr = do
  assert (in_user_range addr)
  let i = addr / pgsize
  s ← read
  if (s.user_mapping i).addr == 0 then pure tt else do
    assert (has (s.user_llpt i) pte_a)
    set_sum true
    restore_page (i * pgsize)
    set_sum false
    s' ← read
    write (append_free i (unmap i s'))

-- The entry for a new page. `random` is below ten.
pub new_pte : ℕ → ℕ → ℕ
new_pte addr random =
    let ppn = addr / 2 ^ pgshift * 2 ^ pte_ppn_shift % 2 ^ 64 in
    if random == 0
    then bit_or (bit_or (bit_or (bit_or (bit_or ppn pte_v) pte_u) pte_r) pte_w) pte_x
    else bit_or ppn (bit_and (random / 2 ^ 16) 0xff)

abbrev pub set_pte : ℕ → ℕ → State → State
set_pte i pte s = record s { user_llpt = update s.user_llpt i pte }

-- The first branch of `handle_fault`: the page has an entry already.
pub mark_page : ℕ → ℕ → M (Unit {0})
mark_page i cause = do
  s ← read
  let pte = s.user_llpt i
  if not (has pte pte_a) then write (set_pte i (bit_or pte pte_a) s) else do
    assert (not (has pte pte_d) && cause == cause_store_page_fault)
    write (set_pte i (bit_or pte pte_d) s)

eq_ref : Option Ref → Option Ref → Bool
eq_ref none none = true
eq_ref none (some _) = false
eq_ref (some _) none = false
eq_ref (some (mapping i)) (some (mapping j)) = i == j
eq_ref (some (mapping i)) (some (node j)) = false
eq_ref (some (node i)) (some (mapping j)) = false
eq_ref (some (node i)) (some (node j)) = i == j

-- The removal of the first free node.
pub pop_free : Ref → State → State
unfolding eq_ref
pop_free r s =
    let head = (get s r).next in
    record s {
      freelist_head = head;
      freelist_tail = if eq_ref head s.freelist_tail then none else s.freelist_tail;
    }

-- The rest of `handle_fault`, with the node that was taken from the free list.
pub map_page : ℕ → ℕ → Ref → M (Unit {0})
map_page random i r = do
  s ← read
  let pte = new_pte (get s r).addr random
  write (set_pte i (bit_or (bit_or pte pte_a) pte_d) s)
  assert ((s.user_mapping i).addr == 0)
  s ← read
  write (record s { user_mapping = update s.user_mapping i (get s r) })
  set_sum true
  to ← user_page store (i * pgsize)
  copy_page to (backing (i * pgsize))
  set_sum false
  s ← read
  write (set_pte i pte s)

-- `seed` is the value of the local variable `random`, which the C code reads before it is set.
unfoldable pub handle_fault : (seed addr cause : ℕ) → M (Unit {0})
unfolding mark_page
handle_fault seed addr cause = do
  assert (in_user_range addr)
  let i = addr / pgsize
  s ← read
  if not (s.user_llpt i == 0) then mark_page i cause else elim s.freelist_head [
    | none ↦ λ s'. assert_failed s'
    | some r ↦ do write (pop_free r s); map_page (lfsr63 seed % 10) i r
  ]

pub record Trapframe : Type 0 where
  pub gpr : ℕ → ℕ
  pub sr : ℕ
  pub epc : ℕ
  pub badvaddr : ℕ
  pub cause : ℕ

-- Where `handle_trap` goes: `pop_tf` resumes the user, `trap_stvec` does not return.
pub data Exit : Type 0 where
  pop_tf : Trapframe → Exit
  trap_stvec : Exit

-- `for (long i = 1; i < MAX_TEST_PAGES; i++) evict(i*PGSIZE);` from `i`, by the rounds left.
pub evict_from : ℕ → ℕ → M (Unit {0})
evict_from zero i = pure tt
evict_from (suc left) i = evict (i * pgsize) >> evict_from left (i + 1)

unfoldable pub handle_trap : ℕ → Trapframe → M Exit
handle_trap seed tf =
    if tf.cause == cause_fetch_page_fault
      || tf.cause == cause_load_page_fault
      || tf.cause == cause_store_page_fault
    then handle_fault seed tf.badvaddr tf.cause >> pure (pop_tf tf)
    else evict_from (max_test_pages - 1) 1 >> pure trap_stvec
