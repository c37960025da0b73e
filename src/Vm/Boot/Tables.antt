-- ===== src/Vm/Boot/Tables.antt =====
-- The page tables of `vm_boot` of vm.c under the simulator's walk.
use processorfuzz.Base.{ℕ, ◌+◌, ◌-◌, ◌*◌, ◌/◌, ◌%◌, ◌^◌, ◌<◌, ◌≡◌, ◌≢◌, refl, ◌∙◌, ap}
use processorfuzz.Base.{inl, inr, Bool, Option, some, arith, bit_or}
use processorfuzz.Base.Bits.{bit_or_fields, bit_or_comm}
use processorfuzz.Mmu.{Access, fetch, load, store, Mode, supervisor_mode, machine_mode, page}
use processorfuzz.Mmu.{translated, walk_step, walk, walk_loop, has, pte_v}
use processorfuzz.Mmu.{pgshift, pte_ppn_shift}
use processorfuzz.Mmu.Rounds.{walk_end, round_table, round_page, round_last, walk_sv39}
use processorfuzz.Vm.Boot.{Tables, boot_tables, satp_value, link, kernel_entry}
use processorfuzz.Vm.Entry.{entry, or_flag}
use processorfuzz.Vm.Machine.{pgsize, dram_base}

link_entry : (n k : ℕ) → n + k < 2 ^ 52 → link (n * 2 ^ 12) k ≡ entry (n + k) 1
unfolding link
link_entry n k h =
    let e : (n * 2 ^ 12 + k * pgsize) / 2 ^ pgshift * 2 ^ pte_ppn_shift % 2 ^ 64 ≡ entry (n + k) 0 =
      omega arith in
    rw e (or_flag (n + k) 0 pte_v 1 (omega arith) (omega arith) refl)

kernel_entry_lem : kernel_entry ≡ entry 0x80000 0xcf
unfolding kernel_entry
kernel_entry_lem = refl

-- Sv39, with the root table at the page `n`.
satp_value_lem : (n : ℕ) → n < 2 ^ 44 → satp_value (n * 2 ^ 12) ≡ 2 ^ 63 + n
unfolding satp_value
satp_value_lem n h =
    let e : n * 2 ^ 12 / 2 ^ pgshift ≡ n = omega arith in
    rw (e, bit_or_comm n (2 ^ 63)) (bit_or_fields 44 (2 ^ 19) n h)

kernel_page :
    (addr : ℕ)
    → bit_or 0x80000 (addr / 2 ^ 12 % 2 ^ 9) * 2 ^ 12 % 2 ^ 64
      ≡ (0x80000 + addr / 2 ^ 12 % 2 ^ 9) * 2 ^ 12
kernel_page addr = omega (arith, bit_or_fields 9 1024 (addr / 2 ^ 12 % 2 ^ 9) (omega arith))

-- The megapage's entry lets the supervisor read, write and execute.
step_kernel :
    (type : Access) (sum mxr : Bool) (addr : ℕ)
    → walk_step type supervisor_mode sum mxr addr 9 (entry 0x80000 0xcf)
      ≡ page ((0x80000 + addr / 2 ^ 12 % 2 ^ 9) * 2 ^ 12)
unfolding walk_step has
step_kernel fetch sum mxr addr = ap page (kernel_page addr)
step_kernel load sum mxr addr = ap page (kernel_page addr)
step_kernel store sum mxr addr = ap page (kernel_page addr)

-- The memory holds the tables `pt` from page `n` on. The first three are as `vm_boot` left them; the
-- last is `user_llpt`, which the fault handler writes.
pub record HoldsTables (read_pte : ℕ → Option ℕ) (n : ℕ) (pt : Tables) : Type 0 where
  pub fits : n + 4 < 2 ^ 44
  pub reads :
      (k j : ℕ) → k < 4 → j < 512 → read_pte (n * 2 ^ 12 + k * pgsize + j * 8) ≡ some (pt k j)
  pub booted : (k j : ℕ) → k < 3 → pt k j ≡ boot_tables (n * 2 ^ 12) k j

module _ {read_pte : ℕ → Option ℕ} {n : ℕ} {pt : Tables} (held : HoldsTables read_pte n pt) where
  read_at :
      (k j v : ℕ) → k < 4 → j < 512 → pt k j ≡ v → read_pte ((n + k) * 2 ^ 12 + j * 8) ≡ some v
  read_at k j v p q e =
      let a : (n + k) * 2 ^ 12 + j * 8 ≡ n * 2 ^ 12 + k * pgsize + j * 8 = omega arith in
      ap read_pte a ∙ held.reads k j p q ∙ ap some e

  root_user : pt 0 0 ≡ entry (n + 1) 1
  unfolding boot_tables
  root_user = held.booted 0 0 (omega arith) ∙ link_entry n 1 (omega (arith, held.fits))

  root_kernel : pt 0 511 ≡ entry (n + 2) 1
  unfolding boot_tables
  root_kernel = held.booted 0 511 (omega arith) ∙ link_entry n 2 (omega (arith, held.fits))

  middle_user : pt 1 0 ≡ entry (n + 3) 1
  unfolding boot_tables
  middle_user = held.booted 1 0 (omega arith) ∙ link_entry n 3 (omega (arith, held.fits))

  middle_kernel : pt 2 511 ≡ entry 0x80000 0xcf
  unfolding boot_tables
  middle_kernel = held.booted 2 511 (omega arith) ∙ kernel_entry_lem

  satp_root : satp_value (n * 2 ^ 12) % 2 ^ 44 * 2 ^ pgshift ≡ (n + 0) * 2 ^ 12
  satp_root = omega (arith, satp_value_lem n (omega (arith, held.fits)), held.fits)

  satp_mode_sv39 : satp_value (n * 2 ^ 12) / 2 ^ 60 % 2 ^ 4 ≡ 8
  satp_mode_sv39 = omega (arith, satp_value_lem n (omega (arith, held.fits)), held.fits)

  kernel_at :
      (type : Access) (sum mxr : Bool) (off addr : ℕ)
      → off < 2 ^ 21
      → addr ≡ 2 ^ 64 - 2 ^ 21 + off
      → walk read_pte type supervisor_mode sum mxr addr (satp_value (n * 2 ^ 12))
        ≡ translated (dram_base + off / 2 ^ 12 * 2 ^ 12)
  kernel_at type sum mxr off addr h e =
      walk_sv39 read_pte type supervisor_mode sum mxr addr (satp_value (n * 2 ^ 12)) (λ z. cc)
        satp_mode_sv39 (inr (omega arith))
      ∙ ap (walk_loop read_pte type supervisor_mode sum mxr addr 3 9 8) satp_root
      ∙ round_table read_pte type supervisor_mode sum mxr addr 2 ((n + 0) * 2 ^ 12) 511 (n + 2)
          (omega arith) (read_at 0 511 (entry (n + 2) 1) (omega arith) (omega arith) root_kernel)
          (omega (arith, held.fits))
      ∙ round_page read_pte type supervisor_mode sum mxr addr 1 ((n + 2) * 2 ^ 12) 511
          (entry 0x80000 0xcf) ((0x80000 + addr / 2 ^ 12 % 2 ^ 9) * 2 ^ 12) (omega arith)
          (read_at 2 511 (entry 0x80000 0xcf) (omega arith) (omega arith) middle_kernel)
          (step_kernel type sum mxr addr)
      ∙ ap translated (omega arith)

  -- Under the tables and the `satp` of `vm_boot`, the simulator's walk takes each kernel address,
  -- `off` bytes into the last megapage of the address space, to the page of the byte `off` above
  -- DRAM_BASE, for every access of the supervisor.
  pub walk-kernel :
      (type : Access) (sum mxr : Bool) (off : ℕ)
      → off < 2 ^ 21
      → walk read_pte type supervisor_mode sum mxr (2 ^ 64 - 2 ^ 21 + off) (satp_value (n * 2 ^ 12))
        ≡ translated (dram_base + off / 2 ^ 12 * 2 ^ 12)
  walk-kernel type sum mxr off h = kernel_at type sum mxr off (2 ^ 64 - 2 ^ 21 + off) h refl

  -- The walk takes each user address below 2 MiB through the entry of its page in `user_llpt`.
  pub walk-user :
      (type : Access) (mode : Mode) (sum mxr : Bool) (addr : ℕ)
      → mode ≢ machine_mode
      → addr < 2 ^ 21
      → walk read_pte type mode sum mxr addr (satp_value (n * 2 ^ 12))
        ≡ walk_end (walk_step type mode sum mxr addr 0 (pt 3 (addr / pgsize)))
  walk-user type mode sum mxr addr m h =
      walk_sv39 read_pte type mode sum mxr addr (satp_value (n * 2 ^ 12)) m satp_mode_sv39
        (inl (omega arith))
      ∙ ap (walk_loop read_pte type mode sum mxr addr 3 9 8) satp_root
      ∙ round_table read_pte type mode sum mxr addr 2 ((n + 0) * 2 ^ 12) 0 (n + 1) (omega arith)
          (read_at 0 0 (entry (n + 1) 1) (omega arith) (omega arith) root_user)
          (omega (arith, held.fits))
      ∙ round_table read_pte type mode sum mxr addr 1 ((n + 1) * 2 ^ 12) 0 (n + 3) (omega arith)
          (read_at 1 0 (entry (n + 3) 1) (omega arith) (omega arith) middle_user)
          (omega (arith, held.fits))
      ∙ round_last read_pte type mode sum mxr addr ((n + 3) * 2 ^ 12) (addr / pgsize)
          (pt 3 (addr / pgsize)) (omega arith)
          (read_at 3 (addr / pgsize) (pt 3 (addr / pgsize)) (omega arith) (omega arith) refl)
