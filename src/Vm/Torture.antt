-- ===== src/Vm/Torture.antt =====
-- `coherence_torture` of vm.c: the accesses that the harts other than hart 0 make for ever, on a
-- processor with the atomic extension.
use processorfuzz.Base.{ℕ, ◌+◌, ◌-◌, ◌*◌, ◌/◌, ◌%◌, ◌^◌, ◌≤◌, ◌≡◌, sym, ap, ◌∙◌, bit_and, arith}
use processorfuzz.Base.{Bool, not, ◌==◌}
use processorfuzz.Base.Bits.{bit_and_split, bit_and_mask, bit_and-zero}
use processorfuzz.Vm.Machine.{max_test_pages, pgsize, dram_base}
use processorfuzz.Vm.Lfsr.{lfsr63}

-- A write that adds zero, or a read, at a physical address.
pub record Poke : Type 0 where
  pub paddr : ℕ
  pub is_amo : Bool

-- One round of the loop, and the random number of the next.
unfoldable pub torture_step : ℕ → Poke × ℕ
torture_step random = (
  record {
    paddr = dram_base + bit_and (random % (2 * (max_test_pages + 1) * pgsize)) (2 ^ 64 - 4);
    is_amo = not (bit_and random 1 == 0);
  },
  lfsr63 random,
)

round_down : (x : ℕ) → bit_and (x % 2 ^ 20) (2 ^ 64 - 4) ≡ x % 2 ^ 20 / 4 * 4
round_down x =
    let parts : x % 2 ^ 20 / 4 * 2 ^ 2 + x % 2 ^ 20 % 4 ≡ x % 2 ^ 20 = omega arith in
    ap (λ n. bit_and n (2 ^ 64 - 4)) (sym parts)
    ∙ bit_and_split 2 (x % 2 ^ 20 / 4) (2 ^ 62 - 1) (x % 2 ^ 20 % 4) 0 (omega arith) (omega arith)
    ∙ rw (bit_and_mask 62 (x % 2 ^ 20 / 4), bit_and-zero (x % 2 ^ 20 % 4)) (omega arith)

-- Whatever the random number, the access of a round of `coherence_torture` is to a whole aligned
-- word of the first 256 pages of DRAM.
pub torture_step_bounds :
    (random : ℕ)
    → (dram_base ≤ (torture_step random).0.paddr)
      × ((torture_step random).0.paddr + 4 ≤ dram_base + 256 * pgsize)
      × ((torture_step random).0.paddr % 4 ≡ 0)
unfolding torture_step
torture_step_bounds random = (
  omega (arith, round_down random),
  omega (arith, round_down random),
  omega (arith, round_down random),
)
