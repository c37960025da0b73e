-- ===== src/Processor/Protection/First.antt =====
-- Which entry decides a check of physical memory protection, `mmu_t::pmp_ok` of riscv/mmu.cc, and how.
use processorfuzz.Base.{
  ℕ, zero, suc, ◌+◌, ◌*◌, ◌/◌, ◌%◌, ◌^◌, ◌≤◌, ◌<◌, ◌≡◌, refl, ap, fun_ext, ◌∙◌, arith, bit_and,
  bit_xor, Bool, true, false, not, ◌&&◌, ◌||◌, ◌==◌, ltb, leb, if◌then◌else◌,
}
use native.Mathlib.Nat.{one-le-pow}
use processorfuzz.Base.Digits.{bit_and_pair, bit_and_single}
use processorfuzz.Mmu.{Access, fetch, load, store}
use processorfuzz.Processor.State.{State, Config}
use processorfuzz.Processor.Masks.{pmp_r, pmp_w, pmp_x, pmp_a}
use processorfuzz.Processor.Debug.{is_locked}
use processorfuzz.Processor.Protection.{
  tor_end, napot_mask, has_sector, scan_sectors, scan, permits, pmp_from, pmp_ok,
}

-- Where a range that is entry `i` begins: at the end of the entry before it.
abbrev pub base_of : Config → State → ℕ → ℕ
base_of c s zero = 0
base_of c s (suc i) = tor_end c s i

-- Whether a test holds of some, and of all, of the first `n` numbers.
abbrev pub some_below : ℕ → (ℕ → Bool) → Bool
some_below zero test = false
some_below (suc n) test = test 0 || some_below n (λ k. test (suc k))

abbrev pub every_below : ℕ → (ℕ → Bool) → Bool
every_below zero test = true
every_below (suc n) test = test 0 && every_below n (λ k. test (suc k))

-- The sectors of four bytes of an access, by their numbers.
abbrev pub sectors : (len : ℕ) → ℕ
sectors len = (len + 3) / 4

-- Whether entry `i` has a sector: a range goes from the end of the entry before up to its own, and
-- a region has the addresses that agree with its own under its mask.
abbrev pub matches : Config → State → (addr i k : ℕ) → Bool
matches c s addr i k =
    let a = (addr + 4 * k) % 2 ^ 64 in
    if s.pmpcfg i / 2 ^ 3 % 4 == 1
    then leb (base_of c s i) a && ltb a (tor_end c s i)
    else bit_and (bit_xor a (tor_end c s i)) (napot_mask c s i) == 0

-- Whether entry `i` is on and has some sector of the access, and whether it has every one.
abbrev pub touches : Config → State → (addr len i : ℕ) → Bool
touches c s addr len i =
    not (s.pmpcfg i / 2 ^ 3 % 4 == 0) && some_below (sectors len) (matches c s addr i)

abbrev pub covers : Config → State → (addr len i : ℕ) → Bool
covers c s addr len i = every_below (sectors len) (matches c s addr i)

-- What a configuration grants, by its bits R, W, X and L: the machine is held to a locked one only.
abbrev pub grants : (cfg : ℕ) → Access → (mode : ℕ) → Bool
grants cfg type mode =
    (mode == 3 && cfg / 2 ^ 7 % 2 == 0)
    || elim type [ load ↦ cfg % 2 == 1 | store ↦ cfg / 2 % 2 == 1 | fetch ↦ cfg / 2 ^ 2 % 2 == 1 ]

not_zero : (n : ℕ) → 0 < n → (n == 0) ≡ false
not_zero n h = ground arith

-- The mode of an entry is in bits 3 and 4 of its configuration.
mode_lem : (cfg : ℕ) → bit_and cfg pmp_a ≡ cfg / 2 ^ 3 % 4 * 2 ^ 3
mode_lem cfg = bit_and_pair 3 cfg

is_off : (x : ℕ) → (x * 2 ^ 3 == 0) ≡ (x == 0)
is_off x = ground arith

is_tor : (x : ℕ) → (x * 2 ^ 3 == 8) ≡ (x == 1)
is_tor x = ground arith

is_one : (k y : ℕ) → y < 2 → not (y * 2 ^ k == 0) ≡ (y == 1)
is_one k zero h = ground arith
is_one k (suc zero) h =
    let e : 1 * 2 ^ k ≡ 2 ^ k = omega arith in
    rw (e, not_zero (2 ^ k) (one-le-pow k 2 (omega arith))) refl
is_one k (suc (suc y)) h = absurd (omega (arith, h))

bit_lem : (k x : ℕ) → not (bit_and x (1 * 2 ^ k) == 0) ≡ (x / 2 ^ k % 2 == 1)
bit_lem k x = rw (bit_and_single k x) (is_one k (x / 2 ^ k % 2) (omega arith))

has_sector-matches :
    (c : Config) (s : State) (addr i k : ℕ)
    → has_sector c s i (base_of c s i) ((addr + 4 * k) % 2 ^ 64) ≡ matches c s addr i k
unfolding has_sector
has_sector-matches c s addr i k = rw (mode_lem (s.pmpcfg i), is_tor (s.pmpcfg i / 2 ^ 3 % 4)) refl

off_lem : (cfg : ℕ) → (bit_and cfg pmp_a == 0) ≡ (cfg / 2 ^ 3 % 4 == 0)
off_lem cfg = rw (mode_lem cfg, is_off (cfg / 2 ^ 3 % 4)) refl

unlocked : (cfg : ℕ) → not (is_locked cfg) ≡ (cfg / 2 ^ 7 % 2 == 0)
unlocked cfg = rw (bit_lem 7 cfg) (ground arith)

permits-grants : (cfg : ℕ) (type : Access) (mode : ℕ) → permits cfg type mode ≡ grants cfg type mode
unfolding permits
permits-grants cfg load mode =
    let e : cfg / 2 ^ 0 ≡ cfg = omega arith in
    ap (λ b. (mode == 3 && b) || not (bit_and cfg pmp_r == 0)) (unlocked cfg)
    ∙ ap (λ b. (mode == 3 && cfg / 2 ^ 7 % 2 == 0) || b) (bit_lem 0 cfg ∙ ap (λ x. x % 2 == 1) e)
permits-grants cfg store mode =
    ap (λ b. (mode == 3 && b) || not (bit_and cfg pmp_w == 0)) (unlocked cfg)
    ∙ ap (λ b. (mode == 3 && cfg / 2 ^ 7 % 2 == 0) || b) (bit_lem 1 cfg)
permits-grants cfg fetch mode =
    ap (λ b. (mode == 3 && b) || not (bit_and cfg pmp_x == 0)) (unlocked cfg)
    ∙ ap (λ b. (mode == 3 && cfg / 2 ^ 7 % 2 == 0) || b) (bit_lem 2 cfg)

regroup :
    (a b h x y : Bool)
    → ◌≡◌ {A = Bool × Bool} (a || h || x, b && h && y) (a || (h || x), b && (h && y))
regroup a b h x y = ground arith

first_sector : (addr offset : ℕ) → addr + offset ≡ addr + (offset + 4 * 0)
first_sector addr offset = omega arith

next_sector : (addr offset k : ℕ) → addr + (offset + 4 + 4 * k) ≡ addr + (offset + 4 * suc k)
next_sector addr offset k = omega arith

-- The loop over the sectors finds whether some and whether every one matches.
scan_sectors_lem :
    (f : ℕ → Bool) (addr n offset : ℕ) (any all : Bool)
    → scan_sectors f addr n offset any all ≡ (
      any || some_below n (λ k. f ((addr + (offset + 4 * k)) % 2 ^ 64)),
      all && every_below n (λ k. f ((addr + (offset + 4 * k)) % 2 ^ 64)),
    )
unfolding scan_sectors
scan_sectors_lem f addr zero offset any all = ground arith
scan_sectors_lem f addr (suc n) offset any all =
    let now = f ((addr + offset) % 2 ^ 64) in
    let later : (λ k. f ((addr + (offset + 4 + 4 * k)) % 2 ^ 64))
        ≡ (λ k. f ((addr + (offset + 4 * suc k)) % 2 ^ 64)) =
      fun_ext (λ k. ap (λ x. f (x % 2 ^ 64)) (next_sector addr offset k)) in
    let here : addr + offset ≡ addr + (offset + 4 * 0) = first_sector addr offset in
    let rest : ℕ → Bool = λ k. f ((addr + (offset + 4 * suc k)) % 2 ^ 64) in
    scan_sectors_lem f addr n (offset + 4) (any || now) (all && now)
    ∙ ap (λ g. (any || now || some_below n g, all && now && every_below n g)) later
    ∙ regroup any all now (some_below n rest) (every_below n rest)
    ∙ ap
        (λ x. (
          any || (f (x % 2 ^ 64) || some_below n rest),
          all && (f (x % 2 ^ 64) && every_below n rest),
        ))
        here

zero_add : (x : ℕ) → 0 + x ≡ x
zero_add x = omega arith

scan_lem :
    (c : Config) (s : State) (addr len i : ℕ)
    → scan c s i (base_of c s i) addr len
      ≡ (some_below (sectors len) (matches c s addr i), covers c s addr len i)
unfolding scan
scan_lem c s addr len i =
    let from_start : (k : ℕ)
        → has_sector c s i (base_of c s i) ((addr + (0 + 4 * k)) % 2 ^ 64) ≡ matches c s addr i k =
      λ k.
        ap (λ x. has_sector c s i (base_of c s i) ((addr + x) % 2 ^ 64)) (zero_add (4 * k))
        ∙ has_sector-matches c s addr i k in
    scan_sectors_lem (has_sector c s i (base_of c s i)) addr (sectors len) 0 false true
    ∙ ap (λ g. (some_below (sectors len) g, every_below (sectors len) g)) (fun_ext from_start)

module _ (c : Config) (s : State) (addr len : ℕ) (type : Access) (mode : ℕ) where
  abbrev verdict : ℕ → Bool
  verdict j = covers c s addr len j && grants (s.pmpcfg j) type mode

  -- The round of the loop at an entry.
  pmp_from_lem :
      (left i : ℕ)
      → pmp_from c s addr len type mode (suc left) i (base_of c s i) ≡ (
          if touches c s addr len i
          then verdict i
          else pmp_from c s addr len type mode left (suc i) (tor_end c s i))
  unfolding pmp_from
  pmp_from_lem left i =
      rw (scan_lem c s addr len i, off_lem (s.pmpcfg i), permits-grants (s.pmpcfg i) type mode) refl

  passes : (b x y : Bool) → b ≡ false → (if b then x else y) ≡ y
  passes b x y e = rw e refl

  decides : (b x y : Bool) → b ≡ true → (if b then x else y) ≡ x
  decides b x y e = rw e refl

  pmp_from-first :
      (d left i j : ℕ)
      → d + i ≡ j
      → d < left
      → ((k : ℕ) → i ≤ k → k < j → touches c s addr len k ≡ false)
      → touches c s addr len j ≡ true
      → pmp_from c s addr len type mode left i (base_of c s i) ≡ verdict j
  pmp_from-first d zero i j e l before hit = absurd (omega arith)
  pmp_from-first zero (suc left) i j e l before hit =
      let here : i ≡ j = omega arith in
      pmp_from_lem left i
      ∙ decides (touches c s addr len i) (verdict i) _ (rw here hit)
      ∙ ap verdict here
  pmp_from-first (suc d) (suc left) i j e l before hit =
      pmp_from_lem left i
      ∙ passes (touches c s addr len i) (verdict i) _ (before i (omega arith) (omega arith))
      ∙ pmp_from-first d left (suc i) j (omega arith) (omega arith)
          (λ k a b. before k (omega arith) b) hit

  -- The lowest-numbered entry that is on and has some sector of the access decides: it is allowed if
  -- the entry has every sector of the access, and its configuration has the bit of the access, or the
  -- access is the machine's and the entry is not locked. The sectors are the (len + 3) / 4 from the
  -- address on, four bytes apart.
  pub pmp_ok-first :
      (j : ℕ)
      → j < c.n_pmp
      → ((k : ℕ) → k < j → touches c s addr len k ≡ false)
      → touches c s addr len j ≡ true
      → pmp_ok c s addr len type mode ≡ verdict j
  unfolding pmp_ok
  pmp_ok-first j l before hit =
      let some_entries : (c.n_pmp == 0) ≡ false = not_zero c.n_pmp (omega arith) in
      passes (c.n_pmp == 0) true _ some_entries
      ∙ pmp_from-first j c.n_pmp 0 j (omega arith) l (λ k a b. before k b) hit
