-- ===== src/Mmu/Allowed.antt =====
-- What the walk of the simulator lets through.
use processorfuzz.Base.{ℕ, ◌+◌, ◌*◌, ◌/◌, ◌%◌, ◌^◌, ◌≡◌, refl, sym, ap, ◌∙◌, bit_and, bit_or, arith}
use processorfuzz.Base.Bits.{bit_and_split, bit_and_mask, bit_and-zero}
use native.Mathlib.Nat.{one-le-pow, mod-lt, div-add-mod'}
use processorfuzz.Base.{Bool, true, false, not, ◌&&◌, ◌||◌, ==_iff, if◌then◌else◌}
use processorfuzz.Mmu.{
  Access, fetch, load, store, is_fetch, is_store, Mode, is_supervisor, Step, table, page, denied,
  has, pte_v, pte_u, pte_r, pte_w, pte_x, pte_a, pte_d, pte_ppn_shift, pgshift, not_permitted,
  walk_step,
}

-- The bits that mark an access: A, and D for a store.
abbrev pub marks : Access → ℕ
marks type = bit_or pte_a (if is_store type then pte_d else 0)

-- An access that the entry of a page allows, and the physical page `p` that it leads to.
pub record IsAllowed (type : Access) (mode : Mode) (sum mxr : Bool) (addr ptshift pte p : ℕ)
    : Type 0 where
  pub valid : has pte pte_v ≡ true
  pub accessed : has pte pte_a ≡ true
  pub dirty : is_store type ≡ true → has pte pte_d ≡ true
  pub fetchable : type ≡ fetch → has pte pte_x ≡ true
  pub readable : type ≡ load → (has pte pte_r || (mxr && has pte pte_x)) ≡ true
  pub writable : type ≡ store → (has pte pte_r && has pte pte_w) ≡ true
  pub not_private : is_supervisor mode ≡ false → has pte pte_u ≡ true
  pub guarded :
      is_supervisor mode ≡ true → has pte pte_u ≡ true → (sum ≡ true) × (is_fetch type ≡ false)
  pub aligned : pte / 2 ^ pte_ppn_shift % 2 ^ ptshift ≡ 0
  pub target :
      p ≡ bit_or (pte / 2 ^ pte_ppn_shift) (addr / 2 ^ pgshift % 2 ^ ptshift) * 2 ^ pgshift % 2 ^ 64

-- A single bit.
bit_at : (k pte : ℕ) → bit_and pte (1 * 2 ^ k + 0) ≡ pte / 2 ^ k % 2 * 2 ^ k
bit_at k pte =
    let p = one-le-pow k 2 (omega arith) in
    ap (λ x. bit_and x (1 * 2 ^ k + 0)) (sym (div-add-mod' pte (2 ^ k)))
    ∙ bit_and_split k (pte / 2 ^ k) 1 (pte % 2 ^ k) 0 (mod-lt pte (omega (arith, p)))
        (omega (arith, p))
    ∙ rw (bit_and_mask 1 (pte / 2 ^ k), bit_and-zero (pte % 2 ^ k)) (omega arith)

both_bits : (pte : ℕ) → bit_and pte 0xc0 ≡ pte / 2 ^ 6 % 4 * 2 ^ 6
both_bits pte =
    ap (λ x. bit_and x 0xc0) (sym (div-add-mod' pte (2 ^ 6)))
    ∙ bit_and_split 6 (pte / 2 ^ 6) 3 (pte % 2 ^ 6) 0 (omega arith) (omega arith)
    ∙ rw (bit_and_mask 2 (pte / 2 ^ 6), bit_and-zero (pte % 2 ^ 6)) (omega arith)

marked_accessed :
    (type : Access) (pte : ℕ) → bit_and pte (marks type) ≡ marks type → has pte pte_a ≡ true
unfolding has
marked_accessed fetch pte h = ground (arith, h)
marked_accessed load pte h = ground (arith, h)
marked_accessed store pte h = ground (arith, h, both_bits pte, bit_at 6 pte)

marked_dirty :
    (type : Access) (pte : ℕ)
    → bit_and pte (marks type) ≡ marks type
    → is_store type ≡ true
    → has pte pte_d ≡ true
unfolding has
marked_dirty fetch pte h s = ground (arith, s)
marked_dirty load pte h s = ground (arith, s)
marked_dirty store pte h s = ground (arith, h, both_bits pte, bit_at 7 pte)

not_denied :
    (b : Bool) {s : Step} {p : ℕ} → (if b then denied else s) ≡ page p → (b ≡ false) × (s ≡ page p)
not_denied true h = ground (arith, h)
not_denied false h = (refl, h)

not_table : (b : Bool) (n : ℕ) {s : Step} {p : ℕ} → (if b then table n else s) ≡ page p → s ≡ page p
not_table true n h = ground (arith, h)
not_table false n h = h

not-false : (b : Bool) → not b ≡ false → b ≡ true
not-false b h = ground (arith, h)

either_false : (a b : Bool) → (a || b) ≡ false → (a ≡ false) × (b ≡ false)
either_false a b h = ground (arith, h)

page_of : (p q : ℕ) → page p ≡ page q → q ≡ p
page_of p q h = ground (arith, h)

module _ (mxr : Bool) (pte : ℕ) where
  permitted_fetch :
      (type : Access) → not_permitted type mxr pte ≡ false → type ≡ fetch → has pte pte_x ≡ true
  permitted_fetch type h e = not-false _ (ap (λ t. not_permitted t mxr pte) (sym e) ∙ h)

  permitted_load :
      (type : Access)
      → not_permitted type mxr pte ≡ false
      → type ≡ load
      → (has pte pte_r || (mxr && has pte pte_x)) ≡ true
  permitted_load type h e =
      let l = ap (λ t. not_permitted t mxr pte) (sym e) ∙ h in ground (arith, l)

  permitted_store :
      (type : Access)
      → not_permitted type mxr pte ≡ false
      → type ≡ store
      → (has pte pte_r && has pte pte_w) ≡ true
  permitted_store type h e = not-false _ (ap (λ t. not_permitted t mxr pte) (sym e) ∙ h)

owner_private :
    (u s f sum : Bool) → (if u then s && (f || not sum) else not s) ≡ false → s ≡ false → u ≡ true
owner_private u s f sum h e = ground (arith, h, e)

owner_guarded :
    (u s f sum : Bool)
    → (if u then s && (f || not sum) else not s) ≡ false
    → s ≡ true
    → u ≡ true
    → (sum ≡ true) × (f ≡ false)
owner_guarded u s f sum h e g = ground (arith, h, e, g)

-- Where one round of the walk ends at a page, the entry is valid and accessed, and dirty for a
-- store; it has X for a fetch, R for a load (or X with `mxr`), and R and W for a store; the user
-- reaches only pages with U, and the supervisor reaches those only with SUM and never to fetch; a
-- superpage is aligned; and the page is the entry's with the low bits of the virtual page number.
pub walk_step-IsAllowed :
    (type : Access) (mode : Mode) (sum mxr : Bool) (addr ptshift pte p : ℕ)
    → walk_step type mode sum mxr addr ptshift pte ≡ page p
    → IsAllowed type mode sum mxr addr ptshift pte p
unfolding walk_step
walk_step-IsAllowed type mode sum mxr addr ptshift pte p h =
    let after_table = not_table _ _ h in
    let owner = not_denied _ after_table in
    let valid = not_denied _ (owner.1) in
    let permission = not_denied _ (valid.1) in
    let aligned = not_denied _ (permission.1) in
    let marked = not_denied _ (aligned.1) in
    let marks_set = (==_iff _ _).0 (not-false _ (marked.0)) in
    record {
      valid = not-false _ ((either_false _ _ (valid.0)).0);
      accessed = marked_accessed type pte marks_set;
      dirty = marked_dirty type pte marks_set;
      fetchable = permitted_fetch mxr pte type (permission.0);
      readable = permitted_load mxr pte type (permission.0);
      writable = permitted_store mxr pte type (permission.0);
      not_private = owner_private _ _ _ _ (owner.0);
      guarded = owner_guarded _ _ _ _ (owner.0);
      aligned = (==_iff _ _).0 (not-false _ (aligned.0));
      target = page_of _ _ (marked.1);
    }
