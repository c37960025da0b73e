-- ===== src/Examples/Vm.antt =====
-- Template/include/v/vm.c on small states.
use processorfuzz.Base.{
  ℕ, zero, suc, ◌+◌, ◌-◌, ◌*◌, ◌/◌, ◌%◌, ◌^◌, ◌<◌, ◌≡◌, ◌≢◌, ◌↔◌, ◌⊎◌, refl, inl, inr,
}
use processorfuzz.Base.{false, Option, none, some, arith}
use processorfuzz.Mmu.{load, store, user_mode, supervisor_mode, walk, translated, walk_step}
use processorfuzz.Mmu.Rounds.{walk_end}
use processorfuzz.Vm.{evict, handle_fault, handle_trap, Trapframe, trap_stvec}
use processorfuzz.Vm.Machine.{
  State, FreeNode, node, ok, page_faulted, assert_failed, pgsize, dram_base,
}
use processorfuzz.Vm.Machine.{cause_load_page_fault, cause_store_page_fault}
use processorfuzz.Vm.Lfsr.{lfsr63, lfsr63_prev, lfsr_after, lfsr63_bijective}
use processorfuzz.Vm.Entry.{entry, user_rwx, user_rwxad}
use processorfuzz.Vm.FreeList.{Chain, has_mapping}
use processorfuzz.Vm.Marks.{Life, handle_fault-Life}
use processorfuzz.Vm.FirstTouch.{
  IsFresh, IsMapped, handle_fault-IsMapped, handle_fault-page_faulted,
}
use processorfuzz.Vm.Evict.{IsFreed, evict-IsFreed}
use processorfuzz.Vm.Trap.{CanEvict, AreEvicted, IsDirty, handle_trap-AreEvicted}
use processorfuzz.Vm.Boot.{boot_list, boot_tables, satp_value}
use processorfuzz.Vm.Boot.Nodes.{
  nodes_from, boot_list-Chain, boot_list_addr, boot_list_shares, boot_list-Chain_bounds,
}
use processorfuzz.Vm.Boot.Tables.{HoldsTables, walk-kernel, walk-user}
use processorfuzz.Libc.Copied.{copied}

abbrev unused : FreeNode
unused = record { addr = 0; next = none }

-- The free list as `vm_boot` leaves it for an ENTROPY of zero, and no page mapped.
abbrev booted : State
booted = record {
  user_llpt = λ i. 0;
  user_mapping = λ i. unused;
  freelist_nodes = (boot_list 0).nodes;
  freelist_head = (boot_list 0).head;
  freelist_tail = (boot_list 0).tail;
  memory = λ a. a % 256;
  sum = false;
}

booted-Chain : Chain booted booted.freelist_head (nodes_from 127 0)
booted-Chain = boot_list-Chain 0 booted refl refl

booted-IsFresh : IsFresh booted 0x1234 (node 0) 0x80080 (nodes_from 126 1)
unfolding has_mapping lfsr_after
booted-IsFresh = record {
  in_range = refl;
  no_entry = refl;
  no_node = refl;
  chain = booted-Chain;
  apart = refl;
  frame = boot_list_addr 0 0 (omega arith);
  can_copy = record { fits = omega arith; bytes = λ a. omega arith; apart = omega arith };
}

-- A seed of zero draws zero.
zero_drawn : lfsr63 0 % 10 ≡ 0
unfolding lfsr63
zero_drawn = refl

four_drawn : lfsr63 1 % 10 ≡ 4
unfolding lfsr63
four_drawn = refl

handle_fault-IsMapped_example :
    (s' : State) × (handle_fault 0 0x1234 cause_load_page_fault booted ≡ ok tt s')
    × IsMapped booted s' 1 (node 0) 0x80080 (nodes_from 126 1)
handle_fault-IsMapped_example =
    handle_fault-IsMapped 0 cause_load_page_fault booted-IsFresh zero_drawn

handle_fault-page_faulted_example :
    (s' : State) × (handle_fault 1 0x1234 cause_load_page_fault booted
      ≡ page_faulted cause_store_page_fault 0x1000 s')
    × (s'.user_llpt 1 ≡ entry 0x80080 0xc0)
    × (handle_fault 7 0x1000 cause_store_page_fault s' ≡ assert_failed s')
handle_fault-page_faulted_example =
    handle_fault-page_faulted 1 cause_load_page_fault booted-IsFresh 7 (omega (arith, four_drawn))

-- Page 1 is mapped, with the given flags.
abbrev one_node : ℕ → FreeNode
one_node zero = unused
one_node (suc zero) = record { addr = 0x8008_0000; next = some (node 1) }
one_node (suc (suc i)) = unused

abbrev one_entry : ℕ → ℕ → ℕ
one_entry f zero = 0
one_entry f (suc zero) = entry 0x80080 f
one_entry f (suc (suc i)) = 0

abbrev one_page : ℕ → State
one_page f = record booted {
  user_llpt = one_entry f;
  user_mapping = one_node;
  freelist_head = some (node 1);
}

handle_fault-Life_example : Life (one_page user_rwx) 0x1234 0x80080 cause_load_page_fault
handle_fault-Life_example =
    handle_fault-Life (one_page user_rwx) 0x1234 0x80080 cause_load_page_fault refl (omega arith)
      refl

evict-IsFreed_example :
    (s' : State) × (evict 0x1000 (one_page user_rwxad) ≡ ok tt s')
    × IsFreed (one_page user_rwxad) s' 1
    × (s'.memory ≡ copied (one_page user_rwxad).memory 0x8008_0000 0x8000_1000 pgsize)
    × (s'.user_llpt ≡ one_entry user_rwxad)
    × (s'.sum ≡ false)
unfolding boot_list
evict-IsFreed_example =
    evict-IsFreed (one_page user_rwxad) 0x1000 0x80080 refl (omega arith) refl
      (record { fits = omega arith; bytes = λ a. omega arith; apart = omega arith }) (λ e. cc)

one_page-pages : (j : ℕ) → ((one_node j).addr ≡ 0) ⊎ IsDirty (one_page user_rwxad) j
one_page-pages zero = inl refl
one_page-pages (suc zero) =
    inr (record { number = 0x80080; entered = refl; fits = omega arith; apart = omega arith })
one_page-pages (suc (suc j)) = inl refl

one_page-CanEvict : CanEvict (one_page user_rwxad)
unfolding boot_list
one_page-CanEvict = record { bytes = λ a. omega arith; pages = one_page-pages; tail = λ j e. cc }

abbrev user_ecall : Trapframe
user_ecall = record { gpr = λ i. 0; sr = 0; epc = 0; badvaddr = 0; cause = 8 }

handle_trap-AreEvicted_example :
    (s' : State) × (handle_trap 0 user_ecall (one_page user_rwxad) ≡ ok trap_stvec s')
    × AreEvicted (one_page user_rwxad) s' 1 127
handle_trap-AreEvicted_example =
    handle_trap-AreEvicted 0 user_ecall (one_page user_rwxad) refl one_page-CanEvict

lfsr63_bijective_example :
    (lfsr63 5 < 2 ^ 63)
    × (lfsr63_prev (lfsr63 5) ≡ 5)
    × (lfsr63 (lfsr63_prev 5) ≡ 5)
    × (◌≢◌ {A = ℕ} 5 0 → lfsr63 5 ≢ 0)
lfsr63_bijective_example = lfsr63_bijective 5 (omega arith)

boot_list-Chain_bounds_example :
    Chain booted booted.freelist_head (nodes_from 127 0)
    × ((p : ℕ) × (((boot_list 0).nodes 5).addr ≡ dram_base + p * pgsize) × (127 < p) × (p < 512))
boot_list-Chain_bounds_example = boot_list-Chain_bounds 0 5 booted refl refl (omega arith)

boot_list_shares_example :
    (((boot_list 9).nodes 2).addr ≡ ((boot_list 9).nodes 65).addr) ↔ ((65 - 2) % 63 ≡ 0)
boot_list_shares_example = boot_list_shares 9 2 65 (omega arith) (omega arith) (omega arith)

-- The tables at page 0x80003, and a memory that holds them.
abbrev read_tables : ℕ → Option ℕ
read_tables a =
    some (boot_tables 0x8000_3000 ((a - 0x8000_3000) / pgsize) ((a - 0x8000_3000) % pgsize / 8))

read_tables-HoldsTables : HoldsTables read_tables 0x80003 (boot_tables 0x8000_3000)
read_tables-HoldsTables = record {
  fits = omega arith;
  reads = λ k j p q.
      (let e : (k * pgsize + j * 8) / pgsize ≡ k = omega arith in
        let f : (k * pgsize + j * 8) % pgsize / 8 ≡ j = omega arith in
        let d : 0x8000_3000 + k * pgsize + j * 8 - 0x8000_3000 ≡ k * pgsize + j * 8 = omega arith in
        rw (d, e, f));
  booted = λ k j p. refl;
}

walk-kernel_example :
    walk read_tables store supervisor_mode false false
      (2 ^ 64 - 2 ^ 21 + 0x5678)
      (satp_value (0x80003 * 2 ^ 12))
    ≡ translated (dram_base + 0x5678 / 2 ^ 12 * 2 ^ 12)
walk-kernel_example = walk-kernel read_tables-HoldsTables store false false 0x5678 (omega arith)

walk-user_example :
    walk read_tables load user_mode false false 0x1234 (satp_value (0x80003 * 2 ^ 12))
    ≡ walk_end (walk_step load user_mode false false 0x1234 0 (boot_tables 0x8000_3000 3 1))
walk-user_example =
    walk-user read_tables-HoldsTables load user_mode false false 0x1234 (λ e. cc) (omega arith)
