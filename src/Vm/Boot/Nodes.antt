-- ===== src/Vm/Boot/Nodes.antt =====
-- The free list that `vm_boot` of vm.c builds.
use processorfuzz.Base.{
  ℕ, zero, suc, ◌+◌, ◌-◌, ◌*◌, ◌%◌, ◌≤◌, ◌<◌, ◌≡◌, ◌≢◌, ◌↔◌, refl, ◌∙◌, ap, sym,
}
use processorfuzz.Base.{true, false, ◌&&◌, Option, none, some, List, [], ◌∷◌, arith, ◌==◌, leb, ltb}
use processorfuzz.Base.{inl, inr, if◌then◌else◌, Bool-cases, ltb→lt, ltb_false→le}
use processorfuzz.Vm.Lfsr.{lfsr_next, lfsr_after, lfsr_next_bounds, lfsr_after_period}
use processorfuzz.Vm.Lfsr.{lfsr_after_distinct}
use processorfuzz.Vm.Boot.{boot_nodes, boot_list, no_nodes}
use processorfuzz.Vm.FreeList.{Chain}
use processorfuzz.Vm.Machine.{State, Ref, node, FreeNode, update, dram_base, pgsize}

abbrev pub page_of : ℕ → ℕ
page_of random = dram_base + (127 + random) * pgsize

lfsr_after_later :
    (i j x : ℕ) → i < j → lfsr_after (j - i) x ≡ lfsr_after (j - (i + 1)) (lfsr_next x)
unfolding lfsr_after
lfsr_after_later i j x h = let e : j - i ≡ suc (j - (i + 1)) = omega arith in rw e

lfsr_after_none : (i x : ℕ) → lfsr_after (i - i) x ≡ x
unfolding lfsr_after
lfsr_after_none i x = let e : i - i ≡ 0 = omega arith in rw e

boot_nodes_at :
    (left i random : ℕ) (nodes : ℕ → FreeNode) (j : ℕ)
    → boot_nodes left i random nodes j ≡ (
        if leb i j && ltb j (i + left)
        then record { addr = page_of (lfsr_after (j - i) random); next = some (node (j + 1)) }
        else nodes j)
unfolding boot_nodes
boot_nodes_at zero i random nodes j = ground arith
boot_nodes_at (suc left) i random nodes j = ground (
  arith,
  boot_nodes_at left (i + 1) (lfsr_next random)
      (update nodes i (record { addr = page_of random; next = some (node (i + 1)) })) j,
  lfsr_after_later i j random,
  lfsr_after_none i random,
)

module _ (entropy : ℕ) where
  abbrev drawn : ℕ
  drawn = 1 + entropy % 127

  -- The physical page of each free node.
  pub boot_list_addr :
      (j : ℕ) → j < 127 → ((boot_list entropy).nodes j).addr ≡ page_of (lfsr_after j drawn)
  unfolding boot_list
  boot_list_addr j h =
      ground (arith, boot_nodes_at 127 0 drawn no_nodes j, boot_nodes_at 127 0 drawn no_nodes 126)

  boot_list_next :
      (j : ℕ)
      → j < 127
      → ((boot_list entropy).nodes j).next ≡ (if j == 126 then none else some (node (j + 1)))
  unfolding boot_list
  boot_list_next j h = ground (arith, boot_nodes_at 127 0 drawn no_nodes j)

-- The nodes from `i` on, `left` of them.
abbrev pub nodes_from : ℕ → ℕ → List Ref
nodes_from zero i = []
nodes_from (suc left) i = node i ∷ nodes_from left (i + 1)

boot_nodes-Chain :
    (entropy : ℕ) (s : State) (left i : ℕ) (p : Option Ref)
    → s.freelist_nodes ≡ (boot_list entropy).nodes
    → i + suc left ≡ 127
    → p ≡ some (node i)
    → Chain s p (nodes_from (suc left) i)
boot_nodes-Chain entropy s zero i p e h start = (
  start,
  let e₁ : (i == 126) ≡ true = ground arith in
      ap (λ f. (f i).next) e ∙ boot_list_next entropy i (omega arith) ∙ (rw e₁),
)
boot_nodes-Chain entropy s (suc left) i p e h start = (
  start,
  boot_nodes-Chain entropy s left (i + 1) (s.freelist_nodes i).next e (omega arith) (
      let e₁ : (i == 126) ≡ false = ground arith in
      ap (λ f. (f i).next) e ∙ boot_list_next entropy i (omega arith) ∙ (rw e₁)),
)

-- `vm_boot` links the 127 nodes, in order, into a list that ends with a null pointer.
pub boot_list-Chain :
    (entropy : ℕ) (s : State)
    → s.freelist_nodes ≡ (boot_list entropy).nodes
    → s.freelist_head ≡ (boot_list entropy).head
    → Chain s s.freelist_head (nodes_from 127 0)
unfolding boot_list
boot_list-Chain entropy s e h = boot_nodes-Chain entropy s 126 0 s.freelist_head e refl h

lfsr_after_add : (a b x : ℕ) → lfsr_after (a + b) x ≡ lfsr_after b (lfsr_after a x)
unfolding lfsr_after
lfsr_after_add zero b x = let e : zero + b ≡ b = omega arith in rw e
lfsr_after_add (suc a) b x =
    let e : suc a + b ≡ suc (a + b) = omega arith in rw e (lfsr_after_add a b (lfsr_next x))

lfsr_after_bounds :
    (n x : ℕ) → x < 128 → x ≢ 0 → 1 ≤ n → (lfsr_after n x < 64) × (lfsr_after n x ≢ 0)
unfolding lfsr_after
lfsr_after_bounds zero x h ne p = absurd (omega arith)
lfsr_after_bounds (suc zero) x h ne p = lfsr_next_bounds x h ne
lfsr_after_bounds (suc (suc n)) x h ne p =
    let b = lfsr_next_bounds x h ne in
    lfsr_after_bounds (suc n) (lfsr_next x) (omega arith) b.1 (omega arith)

lfsr_after_range : (n x : ℕ) → x < 128 → x ≢ 0 → (lfsr_after n x < 128) × (lfsr_after n x ≢ 0)
unfolding lfsr_after
lfsr_after_range zero x h ne = (h, ne)
lfsr_after_range (suc n) x h ne =
    let b = lfsr_after_bounds (suc n) x h ne (omega arith) in (omega (arith, b.0), b.1)

back_below : (d y : ℕ) → d < 63 → y < 64 → y ≢ 0 → (lfsr_after d y ≡ y) ↔ (d % 63 ≡ 0)
unfolding lfsr_after
back_below d y h lt ne = (
  λ e. elim (Bool-cases (d == 0)) [
    | inl z ↦ ground arith
    | inr n ↦ absurd (lfsr_after_distinct d y h (ground arith) lt ne e)
  ],
  λ z. let e : d ≡ 0 = omega arith in rw e,
)

period_step : (d y : ℕ) → 63 ≤ d → y < 64 → lfsr_after d y ≡ lfsr_after (d - 63) y
period_step d y h lt =
    let e : d ≡ 63 + (d - 63) = omega arith in
    ap (λ n. lfsr_after n y) e
    ∙ lfsr_after_add 63 (d - 63) y
    ∙ ap (lfsr_after (d - 63)) (lfsr_after_period y lt)

-- A 6-bit state that is not zero is back after `d` steps exactly if 63 divides `d`, below 126.
lfsr_after_back : (d y : ℕ) → d < 126 → y < 64 → y ≢ 0 → (lfsr_after d y ≡ y) ↔ (d % 63 ≡ 0)
lfsr_after_back d y h lt ne = elim (Bool-cases (ltb d 63)) [
  | inl t ↦ back_below d y (ltb→lt d 63 t) lt ne
  | inr t ↦
      let big : 63 ≤ d = ltb_false→le d 63 t in
      let rest = back_below (d - 63) y (omega arith) lt ne in
      let e = period_step d y big lt in
      (
        λ b. (let z : (d - 63) % 63 ≡ 0 = rest.0 (sym e ∙ b) in omega arith),
        λ z. e ∙ rest.1 (omega arith),
      )
]

-- Of the free nodes of `vm_boot` after the first, two have the same physical page exactly if the
-- difference of their indices is a multiple of 63; so each of the nodes 1 to 63 shares its page with
-- the node 63 places on.
pub boot_list_shares :
    (entropy i j : ℕ)
    → 1 ≤ i
    → i ≤ j
    → j < 127
    → (((boot_list entropy).nodes i).addr ≡ ((boot_list entropy).nodes j).addr) ↔ ((j - i) % 63 ≡ 0)
boot_list_shares entropy i j lo le hi =
    let x = 1 + entropy % 127 in
    let y = lfsr_after i x in
    let b = lfsr_after_bounds i x (omega arith) (omega arith) lo in
    let back = lfsr_after_back (j - i) y (omega arith) b.0 b.1 in
    let split : j ≡ i + (j - i) = omega arith in
    let later : lfsr_after j x ≡ lfsr_after (j - i) y =
      ap (λ n. lfsr_after n x) split ∙ lfsr_after_add i (j - i) x in
    let at_i = boot_list_addr entropy i (omega arith) in
    let at_j = boot_list_addr entropy j hi in
    (λ e. back.0 (omega arith), λ z. (let w = back.1 z in omega arith))

-- Every free node of `vm_boot` is for a whole page of the kernel's megapage that lies above the
-- 127 backing pages.
pub boot_list_bounds :
    (entropy j : ℕ)
    → j < 127
    → (p : ℕ) × (((boot_list entropy).nodes j).addr ≡ dram_base + p * pgsize)
      × (127 < p)
      × (p < 512)
boot_list_bounds entropy j h =
    let x = 1 + entropy % 127 in
    let b = lfsr_after_range j x (omega arith) (omega arith) in
    (127 + lfsr_after j x, boot_list_addr entropy j h, omega arith, omega arith)

-- `vm_boot` links the 127 nodes, in order, into a list that ends with a null pointer, and every node
-- is for a whole page of the kernel's megapage that lies above the 127 backing pages.
pub boot_list-Chain_bounds :
    (entropy j : ℕ) (s : State)
    → s.freelist_nodes ≡ (boot_list entropy).nodes
    → s.freelist_head ≡ (boot_list entropy).head
    → j < 127
    → Chain s s.freelist_head (nodes_from 127 0)
      × ((p : ℕ) × (((boot_list entropy).nodes j).addr ≡ dram_base + p * pgsize)
          × (127 < p)
          × (p < 512))
boot_list-Chain_bounds entropy j s e h l =
    (boot_list-Chain entropy s e h, boot_list_bounds entropy j l)
