-- ===== src/Mmu/Rounds.antt =====
-- Rounds of the walk of riscv/mmu.cc under Sv39.
use processorfuzz.Base.{ℕ, suc, ◌+◌, ◌-◌, ◌*◌, ◌/◌, ◌%◌, ◌^◌, ◌<◌, ◌≡◌, ◌≢◌, ◌⊎◌, inl, inr, refl}
use processorfuzz.Base.{Bool, Option, some, arith}
use processorfuzz.Base.Bits.{bit_and_low}
use processorfuzz.Mmu.{Access, Mode, user_mode, supervisor_mode, machine_mode, Step, table, page}
use processorfuzz.Mmu.{denied, Walk, translated, page_fault, walk_step, walk, walk_loop}
use processorfuzz.Mmu.{pgshift, pte_ppn_shift}

abbrev entry : ℕ → ℕ → ℕ
entry q f = q * 2 ^ 10 + f

-- An entry with V alone names the next table.
pub step_table :
    (type : Access) (mode : Mode) (sum mxr : Bool) (addr shift q : ℕ)
    → q < 2 ^ 52
    → walk_step type mode sum mxr addr shift (entry q 1) ≡ table (q * 2 ^ 12)
unfolding walk_step
step_table type mode sum mxr addr shift q h =
    let n : entry q 1 / 2 ^ pte_ppn_shift ≡ q = omega arith in
    let w : q * 2 ^ pgshift % 2 ^ 64 ≡ q * 2 ^ 12 = omega arith in
    rw (bit_and_low 10 q 1 0x00f (omega arith) (omega arith), n, w)

-- The walk's result after the findings of its last round.
abbrev pub walk_end : Step → Walk
walk_end (page p) = translated p
walk_end (table _) = page_fault
walk_end denied = page_fault

module _ (read_pte : ℕ → Option ℕ) (type : Access) (mode : Mode) (sum mxr : Bool) (addr : ℕ) where
  pub round_table :
      (i base idx q : ℕ)
      → addr / 2 ^ (pgshift + i * 9) % 2 ^ 9 ≡ idx
      → read_pte (base + idx * 8) ≡ some (entry q 1)
      → q < 2 ^ 52
      → walk_loop read_pte type mode sum mxr addr (suc i) 9 8 base
        ≡ walk_loop read_pte type mode sum mxr addr i 9 8 (q * 2 ^ 12)
  unfolding walk_loop
  round_table i base idx q e r h =
      rw (e, walk_loop) (rw (r, step_table type mode sum mxr addr (i * 9) q h))

  pub round_page :
      (i base idx pte p : ℕ)
      → addr / 2 ^ (pgshift + i * 9) % 2 ^ 9 ≡ idx
      → read_pte (base + idx * 8) ≡ some pte
      → walk_step type mode sum mxr addr (i * 9) pte ≡ page p
      → walk_loop read_pte type mode sum mxr addr (suc i) 9 8 base ≡ translated p
  unfolding walk_loop
  round_page i base idx pte p e r w = rw (e, walk_loop) (rw (r, w))

  pub round_last :
      (base idx pte : ℕ)
      → addr / 2 ^ 12 % 2 ^ 9 ≡ idx
      → read_pte (base + idx * 8) ≡ some pte
      → walk_loop read_pte type mode sum mxr addr 1 9 8 base
        ≡ walk_end (walk_step type mode sum mxr addr 0 pte)
  unfolding walk_loop
  round_last base idx pte e r = rw (e, walk_loop) (rw r)

  -- The walk under Sv39 starts at the table that `satp` names, at an address that is sign-extended
  -- from 39 bits.
  pub walk_sv39 :
      (satp : ℕ)
      → mode ≢ machine_mode
      → satp / 2 ^ 60 % 2 ^ 4 ≡ 8
      → (addr / 2 ^ 38 % 2 ^ 26 ≡ 0) ⊎ (addr / 2 ^ 38 % 2 ^ 26 ≡ 2 ^ 26 - 1)
      → walk read_pte type mode sum mxr addr satp
        ≡ walk_loop read_pte type mode sum mxr addr 3 9 8 (satp % 2 ^ 44 * 2 ^ pgshift)
  unfolding walk
  walk_sv39 satp m e s = by_mode mode m
    where
      by_mode :
          (k : Mode)
          → k ≢ machine_mode
          → walk read_pte type k sum mxr addr satp
            ≡ walk_loop read_pte type k sum mxr addr 3 9 8 (satp % 2 ^ 44 * 2 ^ pgshift)
      by_mode machine_mode n = absurd (n refl)
      by_mode user_mode n = rw (e, walk) (elim s [ inl z ↦ rw z | inr z ↦ rw z ])
      by_mode supervisor_mode n = rw (e, walk) (elim s [ inl z ↦ rw z | inr z ↦ rw z ])
