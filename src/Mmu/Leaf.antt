-- ===== src/Mmu/Leaf.antt =====
-- One round of the walk of riscv/mmu.cc on a last-level entry, and what a translation guarantees.
use processorfuzz.Base.{ℕ, ◌+◌, ◌*◌, ◌/◌, ◌%◌, ◌^◌, ◌<◌, ◌≡◌, bit_and, bit_or}
use processorfuzz.Base.{Bool, arith, if◌then◌else◌}
use processorfuzz.Base.Bits.{bit_and_low, bit_or-zero}
use processorfuzz.Mmu.{Access, fetch, load, store, Mode}
use processorfuzz.Mmu.{Step, table, page, denied, walk_step, has, pte_v, pte_r, pte_w, pte_x, pte_u}
use processorfuzz.Mmu.{pte_a, pte_d, pte_ppn_shift, pgshift, not_permitted, is_store}

-- The same finding at another physical page number.
abbrev pub at_page : ℕ → Step → Step
at_page q (table _) = table (q * 2 ^ 12)
at_page q (page _) = page (q * 2 ^ 12)
at_page q denied = denied

abbrev ad_bits : Access → ℕ
ad_bits type = bit_or pte_a (if is_store type then pte_d else 0)

module _ (q f : ℕ) (h : f < 2 ^ 10) where
  has_low : (m : ℕ) → m < 2 ^ 10 → has (q * 2 ^ 10 + f) m ≡ has f m
  unfolding has
  has_low m p = rw (bit_and_low 10 q f m h p)

  not_permitted_low :
      (type : Access) (mxr : Bool)
      → not_permitted type mxr (q * 2 ^ 10 + f) ≡ not_permitted type mxr f
  not_permitted_low fetch mxr = rw (has_low pte_x (omega arith))
  not_permitted_low load mxr = rw (has_low pte_r (omega arith), has_low pte_x (omega arith))
  not_permitted_low store mxr = rw (has_low pte_r (omega arith), has_low pte_w (omega arith))

  ad_low : (type : Access) → bit_and (q * 2 ^ 10 + f) (ad_bits type) ≡ bit_and f (ad_bits type)
  ad_low fetch = bit_and_low 10 q f 0x40 h (omega arith)
  ad_low load = bit_and_low 10 q f 0x40 h (omega arith)
  ad_low store = bit_and_low 10 q f 0xc0 h (omega arith)

  number_high : (q * 2 ^ 10 + f) / 2 ^ pte_ppn_shift ≡ q
  number_high = omega arith

  number_low : f / 2 ^ pte_ppn_shift ≡ 0
  number_low = omega arith

or_offset : (a addr : ℕ) → bit_or a (addr / 2 ^ pgshift % 2 ^ 0) ≡ a
or_offset a addr = let e : addr / 2 ^ pgshift % 2 ^ 0 ≡ 0 = omega arith in rw e (bit_or-zero a)

-- On a last-level entry the findings depend on the ten low bits alone, and the page is the one
-- that the other bits name.
pub walk_step_low :
    (type : Access) (mode : Mode) (sum mxr : Bool) (addr q f : ℕ)
    → f < 2 ^ 10
    → q < 2 ^ 52
    → walk_step type mode sum mxr addr 0 (q * 2 ^ 10 + f)
      ≡ at_page q (walk_step type mode sum mxr addr 0 f)
unfolding walk_step
walk_step_low type mode sum mxr addr q f h hq =
    let wraps : q * 2 ^ pgshift % 2 ^ 64 ≡ q * 2 ^ 12 = omega arith in
    rw
      (
        bit_and_low 10 q f 0x00f h (omega arith),
        has_low q f h pte_u (omega arith),
        has_low q f h pte_v (omega arith),
        has_low q f h pte_r (omega arith),
        has_low q f h pte_w (omega arith),
        not_permitted_low q f h type mxr,
        ad_low q f h type,
        number_high q f h,
        number_low q f h,
        or_offset q addr,
        wraps,
      )
      (ground arith)
