-- ===== src/Processor/Protection.antt =====
-- The check of physical memory protection: `mmu_t::pmp_ok` of riscv/mmu.cc.
pub mod First
use processorfuzz.Base.{
  ℕ, zero, suc, ◌+◌, ◌*◌, ◌/◌, ◌%◌, ◌^◌, ◌≤◌, ◌<◌, ◌≡◌, refl, ap, ◌∙◌, arith, bit_and, bit_or,
  bit_xor, Bool, true, false, not, ◌&&◌, ◌||◌, ◌==◌, ltb, leb, of_bool, if◌then◌else◌,
}
use processorfuzz.Mmu.{Access, fetch, load, store}
use processorfuzz.Processor.State.{State, Config, not64, prv_m}
use processorfuzz.Processor.Masks.{pmp_r, pmp_w, pmp_x, pmp_a, pmp_tor, pmp_na4, pmp_shift}
use processorfuzz.Processor.Views.{pmp_tor_mask}
use processorfuzz.Processor.Debug.{is_locked}

-- The end of a range, `tor`.
unfoldable pub tor_end : Config → State → ℕ → ℕ
tor_end c s i = bit_and (s.pmpaddr i) (pmp_tor_mask c) * 2 ^ pmp_shift % 2 ^ 64

-- The bits in which an address must agree with the entry's.
unfoldable pub napot_mask : Config → State → ℕ → ℕ
napot_mask c s i =
    let is_na4 = bit_and (s.pmpcfg i) pmp_a == pmp_na4 in
    let mask =
      bit_or (bit_or (s.pmpaddr i * 2 % 2 ^ 64) (of_bool (not is_na4))) (not64 (pmp_tor_mask c)) in
    not64 (bit_and mask (not64 ((mask + 1) % 2 ^ 64))) * 2 ^ pmp_shift % 2 ^ 64

-- Whether entry `i`, as a range from `base` or as a region, has a sector.
unfoldable pub has_sector : Config → State → (i base cur_addr : ℕ) → Bool
has_sector c s i base cur_addr =
    if bit_and (s.pmpcfg i) pmp_a == pmp_tor
    then leb base cur_addr && ltb cur_addr (tor_end c s i)
    else bit_and (bit_xor cur_addr (tor_end c s i)) (napot_mask c s i) == 0

-- The loop over the sectors, of which `left` are left: whether any matches, and whether all do.
unfoldable pub scan_sectors :
    (matches : ℕ → Bool) → (addr left offset : ℕ) → (any_match all_match : Bool) → Bool × Bool
scan_sectors matches addr zero offset any_match all_match = (any_match, all_match)
scan_sectors matches addr (suc left) offset any_match all_match =
    let match = matches ((addr + offset) % 2 ^ 64) in
    scan_sectors matches addr left (offset + 2 ^ pmp_shift) (any_match || match)
      (all_match && match)

-- The loop has a round for each sector that the `len` bytes from the address begin.
unfoldable pub scan : Config → State → (i base addr len : ℕ) → Bool × Bool
scan c s i base addr len =
    scan_sectors (has_sector c s i base) addr ((len + 3) / 2 ^ pmp_shift) 0 false true

-- What the entry's configuration allows.
unfoldable pub permits : (cfg : ℕ) → Access → (mode : ℕ) → Bool
permits cfg type mode = (mode == prv_m && not (is_locked cfg)) || elim type [
  | load ↦ not (bit_and cfg pmp_r == 0)
  | store ↦ not (bit_and cfg pmp_w == 0)
  | fetch ↦ not (bit_and cfg pmp_x == 0)
]

-- The loop over the entries from `i` on, of which `left` are left.
unfoldable pub pmp_from : Config → State → (addr len : ℕ) → Access → (mode left i base : ℕ) → Bool
pmp_from c s addr len type mode zero i base = mode == prv_m
pmp_from c s addr len type mode (suc left) i base =
    let rest = pmp_from c s addr len type mode left (suc i) (tor_end c s i) in
    let (any_match, all_match) = scan c s i base addr len in
    if not (bit_and (s.pmpcfg i) pmp_a == 0) && any_match
    then all_match && permits (s.pmpcfg i) type mode
    else rest

unfoldable pub pmp_ok : Config → State → (addr len : ℕ) → Access → (mode : ℕ) → Bool
unfolding pmp_from
pmp_ok c s addr len type mode =
    if c.n_pmp == 0 then true else pmp_from c s addr len type mode c.n_pmp 0 0
