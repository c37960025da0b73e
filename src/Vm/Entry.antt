-- ===== src/Vm/Entry.antt =====
-- The page-table entries that vm.c makes, and what the supervisor may do with them.
use processorfuzz.Base.{ℕ, ◌+◌, ◌*◌, ◌/◌, ◌%◌, ◌^◌, ◌<◌, ◌≡◌, ◌≢◌, ◌∙◌, ap, refl, bit_or}
use processorfuzz.Base.{true, false, arith, ◌==◌}
use processorfuzz.Base.Bits.{bit_or_low, bit_or-zero}
use processorfuzz.Mmu.{store, supervisor_mode, page, denied, walk_step, has}
use processorfuzz.Mmu.{pte_v, pte_r, pte_w, pte_x, pte_u, pte_a, pte_d}
use processorfuzz.Mmu.Leaf.{walk_step_low}
use processorfuzz.Vm.{new_pte}

-- The entry for physical page number `q` with the flags `f`.
abbrev pub entry : ℕ → ℕ → ℕ
entry q f = q * 2 ^ 10 + f

-- Valid, user, readable, writable, executable; and accessed and dirty besides.
abbrev pub user_rwx : ℕ
user_rwx = 0x1f

abbrev pub user_rwxad : ℕ
user_rwxad = 0xdf

pub or_flag :
    (q r t u : ℕ) → r < 2 ^ 10 → t < 2 ^ 10 → bit_or r t ≡ u → bit_or (entry q r) t ≡ entry q u
or_flag q r t u p s e = bit_or_low 10 q r t p s ∙ ap (λ (x : ℕ). q * 2 ^ 10 + x) e

pub new_pte_zero : (addr : ℕ) → addr < 2 ^ 64 → new_pte addr 0 ≡ entry (addr / 2 ^ 12) user_rwx
unfolding new_pte
new_pte_zero addr h =
    let q = addr / 2 ^ 12 in
    let e : q * 2 ^ 10 % 2 ^ 64 ≡ entry q 0 = omega arith in
    rw (
      e,
      or_flag q 0 pte_v 0x01 (omega arith) (omega arith) refl,
      or_flag q 0x01 pte_u 0x11 (omega arith) (omega arith) refl,
      or_flag q 0x11 pte_r 0x13 (omega arith) (omega arith) refl,
      or_flag q 0x13 pte_w 0x17 (omega arith) (omega arith) refl,
      or_flag q 0x17 pte_x 0x1f (omega arith) (omega arith) refl,
    )

-- Since `random` is below ten, its bits from the sixteenth on are zero: no flag is ever set.
pub new_pte_other :
    (addr random : ℕ)
    → addr < 2 ^ 64
    → random < 10
    → random ≢ 0
    → new_pte addr random ≡ entry (addr / 2 ^ 12) 0
unfolding new_pte
new_pte_other addr random h lt ne =
    let e : random / 2 ^ 16 ≡ 0 = omega arith in
    let t : (random == 0) ≡ false = ground arith in
    rw (t, e) (ground (arith, bit_or-zero (addr / 2 ^ 12 * 2 ^ 10 % 2 ^ 64)))

pub with_ad :
    (q f u : ℕ)
    → f < 2 ^ 10
    → bit_or f pte_a < 2 ^ 10
    → bit_or (bit_or f pte_a) pte_d ≡ u
    → bit_or (bit_or (entry q f) pte_a) pte_d ≡ entry q u
with_ad q f u p s e =
    ap (λ x. bit_or x pte_d) (or_flag q f pte_a (bit_or f pte_a) p (omega arith) refl)
    ∙ or_flag q (bit_or f pte_a) pte_d u s (omega arith) e

-- With SUM set, the supervisor writes through an entry that has every flag, at its page.
pub store_rwxad :
    (addr q : ℕ)
    → q < 2 ^ 52
    → walk_step store supervisor_mode true false addr 0 (entry q user_rwxad) ≡ page (q * 2 ^ 12)
unfolding walk_step has
store_rwxad addr q h =
    walk_step_low store supervisor_mode true false addr q user_rwxad (omega arith) h ∙ refl

pub store_invalid :
    (addr q : ℕ)
    → q < 2 ^ 52
    → walk_step store supervisor_mode true false addr 0 (entry q 0xc0) ≡ denied
unfolding walk_step has
store_invalid addr q h =
    walk_step_low store supervisor_mode true false addr q 0xc0 (omega arith) h ∙ refl
