-- ===== src/Vm/Boot.antt =====
-- `vm_boot` of vm.c on hart 0, for RV64 with Sv39: the page tables, `satp` and the free list. The
-- physical address of the array `pt` and ENTROPY are arguments. The writes of the other control
-- registers, the PMP set-up and the jump to the user's first instruction are not modelled.
pub mod Nodes
pub mod Tables
use processorfuzz.Base.{ℕ, zero, suc, ◌+◌, ◌-◌, ◌*◌, ◌/◌, ◌%◌, ◌^◌, bit_and, bit_or}
use processorfuzz.Base.{Option, none, some}
use processorfuzz.Mmu.{pte_v, pte_r, pte_w, pte_x, pte_a, pte_d, pte_ppn_shift, pgshift}
use processorfuzz.Vm.Lfsr.{lfsr_next}
use processorfuzz.Vm.Machine.{Ref, node, FreeNode, update, dram_base, max_test_pages, pgsize}

-- `pt[k][j]`.
abbrev pub Tables : Type 0
Tables = ℕ → ℕ → ℕ

abbrev pub ptes_per_pt : ℕ
ptes_per_pt = 512

abbrev write_entry : ℕ → ℕ → ℕ → Tables → Tables
write_entry k j v pt = update pt k (update (pt k) j v)

-- `((pte_t)table >> PGSHIFT << PTE_PPN_SHIFT) | PTE_V` for the table `pt[k]`.
pub link : ℕ → ℕ → ℕ
link pt_base k = bit_or ((pt_base + k * pgsize) / 2 ^ pgshift * 2 ^ pte_ppn_shift % 2 ^ 64) pte_v

pub kernel_entry : ℕ
kernel_entry =
    bit_or
      (bit_or
        (bit_or
          (bit_or (bit_or (bit_or (dram_base / pgsize * 2 ^ pte_ppn_shift) pte_v) pte_r) pte_w)
          pte_x)
        pte_a)
      pte_d

-- The four writes of the Sv39 branch, to tables that begin as zero.
unfoldable pub boot_tables : ℕ → Tables
unfolding link kernel_entry
boot_tables pt_base = write_entry 1 0 (link pt_base 3) (
    write_entry 2 (ptes_per_pt - 1) kernel_entry (
      write_entry 0 (ptes_per_pt - 1) (link pt_base 2)
        (write_entry 0 0 (link pt_base 1) (λ k j. 0))))

abbrev satp64_mode : ℕ
satp64_mode = 0xF000_0000_0000_0000

-- `(l1pt >> PGSHIFT) | (vm_choice * (SATP_MODE & ~(SATP_MODE<<1)))`.
unfoldable pub satp_value : ℕ → ℕ
satp_value pt_base =
    bit_or (pt_base / 2 ^ pgshift)
      (8 * bit_and satp64_mode (2 ^ 64 - 1 - satp64_mode * 2 % 2 ^ 64) % 2 ^ 64)

pub record FreeList : Type 0 where
  pub nodes : ℕ → FreeNode
  pub head : Option Ref
  pub tail : Option Ref

-- The loop over `freelist_nodes` at index `i`, with `left` rounds left.
pub boot_nodes : (left i random : ℕ) → (ℕ → FreeNode) → ℕ → FreeNode
boot_nodes zero i random nodes = nodes
boot_nodes (suc left) i random nodes = boot_nodes left (i + 1) (lfsr_next random) (
    update nodes i (record {
      addr = dram_base + (max_test_pages + random) * pgsize;
      next = some (node (i + 1));
    }))

abbrev no_nodes : ℕ → FreeNode
no_nodes i = record { addr = 0; next = none }

unfoldable pub boot_list : ℕ → FreeList
boot_list entropy =
    let random = 1 + entropy % max_test_pages in
    let nodes = boot_nodes max_test_pages 0 random no_nodes in
    let last = max_test_pages - 1 in
    record {
      nodes = update nodes last (record (nodes last) { next = none });
      head = some (node 0);
      tail = some (node last);
    }
