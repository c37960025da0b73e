-- ===== src/Mmu.antt =====
-- The page-table walk of the ISA simulator: `mmu_t::walk` of
-- original/Fuzzer/ISASim/riscv-isa-sim/riscv/mmu.cc and `decode_vm_info` of riscv/mmu.h, for
-- RV64 without the hypervisor (`virt` is false, so `s2xlate` returns its argument) and without
-- RISCV_ENABLE_DIRTY (an entry whose A or D bit is missing faults).
pub mod Allowed
pub mod Leaf
pub mod Rounds
use processorfuzz.Base.{ℕ, zero, suc, ◌+◌, ◌-◌, ◌*◌, ◌/◌, ◌%◌, ◌^◌, bit_and, bit_or}
use processorfuzz.Base.{Bool, true, false, not, ◌&&◌, ◌||◌, Option, none, some, ltb, ◌==◌}
use processorfuzz.Base.{if◌then◌else◌}

pub data Access : Type 0 where
  fetch load store : Access

abbrev pub is_fetch : Access → Bool
is_fetch fetch = true
is_fetch load = false
is_fetch store = false

abbrev pub is_store : Access → Bool
is_store store = true
is_store fetch = false
is_store load = false

-- A flag of a page-table entry.
unfoldable pub has : ℕ → ℕ → Bool
has pte flag = not (bit_and pte flag == 0)

abbrev pub pte_v : ℕ
pte_v = 0x001

abbrev pub pte_r : ℕ
pte_r = 0x002

abbrev pub pte_w : ℕ
pte_w = 0x004

abbrev pub pte_x : ℕ
pte_x = 0x008

abbrev pub pte_u : ℕ
pte_u = 0x010

abbrev pub pte_a : ℕ
pte_a = 0x040

abbrev pub pte_d : ℕ
pte_d = 0x080

abbrev pub pte_ppn_shift : ℕ
pte_ppn_shift = 10

abbrev pub pte_table : ℕ → Bool
pte_table pte = bit_and pte 0x00f == pte_v

abbrev pub pgshift : ℕ
pgshift = 12

pub record VmInfo : Type 0 where
  pub levels : ℕ
  pub idxbits : ℕ
  pub ptesize : ℕ
  pub ptbase : ℕ

pub data Mode : Type 0 where
  user_mode supervisor_mode machine_mode : Mode

abbrev pub ppn_of_satp : ℕ → ℕ
ppn_of_satp satp = satp % 2 ^ 44 * 2 ^ pgshift

abbrev pub no_translation : VmInfo
no_translation = record { levels = 0; idxbits = 0; ptesize = 0; ptbase = 0 }

abbrev pub paged : ℕ → ℕ → VmInfo
paged n satp = record { levels = n; idxbits = 9; ptesize = 8; ptbase = ppn_of_satp satp }

-- The decoding of the mode field of `satp`; `none` is the call of `abort`.
pub decode_satp : ℕ → Option VmInfo
decode_satp satp =
    let mode = satp / 2 ^ 60 % 2 ^ 4 in
    if mode == 0
    then some no_translation
    else if mode == 8
    then some (paged 3 satp)
    else if mode == 9
    then some (paged 4 satp)
    else if mode == 10
    then some (paged 5 satp)
    else if mode == 11
    then some (paged 6 satp)
    else none

unfoldable pub decode_vm_info : Mode → ℕ → Option VmInfo
unfolding decode_satp
decode_vm_info machine_mode satp = some no_translation
decode_vm_info supervisor_mode satp = decode_satp satp
decode_vm_info user_mode satp = decode_satp satp

abbrev pub is_supervisor : Mode → Bool
is_supervisor supervisor_mode = true
is_supervisor user_mode = false
is_supervisor machine_mode = false

-- What one round of the walk finds.
pub data Step : Type 0 where
  table : ℕ → Step
  page : ℕ → Step
  denied : Step

-- The permission that the access type needs: R, X with `mxr`, or R and W.
abbrev pub not_permitted : Access → Bool → ℕ → Bool
not_permitted fetch mxr pte = not (has pte pte_x)
not_permitted load mxr pte = not (has pte pte_r) && not (mxr && has pte pte_x)
not_permitted store mxr pte = not (has pte pte_r && has pte pte_w)

-- The tests of one round, on the entry that was read at a level with `ptshift`.
unfoldable pub walk_step : Access → Mode → Bool → Bool → ℕ → ℕ → ℕ → Step
walk_step type mode sum mxr addr ptshift pte =
    let ppn = pte / 2 ^ pte_ppn_shift in
    let ad = bit_or pte_a (if is_store type then pte_d else 0) in
    let page_base = bit_or ppn (addr / 2 ^ pgshift % 2 ^ ptshift) * 2 ^ pgshift % 2 ^ 64 in
    let s_mode = is_supervisor mode in
    if pte_table pte
    then table (ppn * 2 ^ pgshift % 2 ^ 64)
    else if (if has pte pte_u then s_mode && (is_fetch type || not sum) else not s_mode)
    then denied
    else if not (has pte pte_v) || (not (has pte pte_r) && has pte pte_w)
    then denied
    else if not_permitted type mxr pte
    then denied
    else if not (ppn % 2 ^ ptshift == 0)
    then denied
    else if not (bit_and pte ad == ad)
    then denied
    else page page_base

pub data Walk : Type 0 where
  translated : ℕ → Walk
  page_fault access_fault aborted : Walk

-- The memory that the walk reads: `addr_to_mem` and `pmp_ok` at an address, `none` where either
-- refuses.
module _ (read_pte : ℕ → Option ℕ) (type : Access) (mode : Mode) (sum mxr : Bool) (addr : ℕ) where
  -- `levels` counts the rounds left, so that the round's level is one below it.
  pub walk_loop : (levels idxbits ptesize base : ℕ) → Walk
  walk_loop zero idxbits ptesize base = page_fault
  walk_loop (suc i) idxbits ptesize base =
      let ptshift = i * idxbits in
      let idx = addr / 2 ^ (pgshift + ptshift) % 2 ^ idxbits in
      elim (read_pte (base + idx * ptesize)) [
        | none ↦ access_fault
        | some pte ↦ elim (walk_step type mode sum mxr addr ptshift pte) [
          | table next ↦ walk_loop i idxbits ptesize next
          | page phys ↦ translated phys
          | denied ↦ page_fault
        ]
      ]

  -- Bits `va_bits - 1` and up of the address must all be equal. A shift by a negative count, for
  -- six levels, has no meaning in C++.
  pub walk_paged : VmInfo → Walk
  walk_paged vm =
      let va_bits = pgshift + vm.levels * vm.idxbits in
      let width = 64 - (va_bits - 1) in
      let masked_msbs = addr / 2 ^ (va_bits - 1) % 2 ^ width in
      if ltb 64 va_bits
      then aborted
      else if not (masked_msbs == 0) && not (masked_msbs == 2 ^ width - 1)
      then page_fault
      else walk_loop vm.levels vm.idxbits vm.ptesize vm.ptbase

  -- The result is the physical page, with the page offset still zero.
  unfoldable pub walk : ℕ → Walk
  unfolding decode_vm_info walk_paged
  walk satp = elim (decode_vm_info mode satp) [
    | none ↦ aborted
    | some vm ↦
        if vm.levels == 0
        then translated (addr % 2 ^ 64 / 2 ^ pgshift * 2 ^ pgshift)
        else walk_paged vm
  ]
