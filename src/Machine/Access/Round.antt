-- ===== src/Machine/Access/Round.antt =====
-- Loads and stores of `load_func` and `store_func` of riscv/mmu.h on the memory: what a store writes, a
-- load reads.
use processorfuzz.Base.{
  ℕ, zero, suc, ◌+◌, ◌-◌, ◌*◌, ◌/◌, ◌%◌, ◌^◌, ◌<◌, ◌≡◌, refl, sym, ap, ◌∙◌, arith, true, ◌&&◌, ◌==◌,
  leb, ltb,
}
use native.Mathlib.Nat.{
  div-div-eq-div-mul, pow-suc, div-add-mod, mul_assoc, mod-lt, mod-eq_of_lt, add-mul-mod_self_left,
  one-le-pow,
}
use processorfuzz.Libc.Bytes.{Memory, byte_of}
use processorfuzz.Mmu.{load, store}
use processorfuzz.Processor.State.{Config, ok}
use processorfuzz.Machine.Hart.{Machine, Simif, load_le, store_le}
use processorfuzz.Machine.Access.{translate, load_phys, store_phys, load_mem, store_mem}

-- The lowest byte of a number of bytes, and the others.
split_byte : (w n : ℕ) → 0 < n → w % (256 * n) ≡ w % 256 + 256 * (w / 256 % n)
split_byte w n l =
    let q = w / 256 in
    let whole : w ≡ w % 256 + 256 * (q % n) + 256 * n * (q / n) =
      omega (arith, div-add-mod q n, mul_assoc 256 n (q / n)) in
    let small : w % 256 + 256 * (q % n) < 256 * n = omega (arith, mod-lt q l) in
    ap (λ x. x % (256 * n)) whole
    ∙ add-mul-mod_self_left (w % 256 + 256 * (q % n)) (256 * n) (q / n)
    ∙ mod-eq_of_lt small

inside : (p off len : ℕ) → off < len → (leb p (p + off) && ltb (p + off) (p + len)) ≡ true
inside p off len l = ground arith

byte_at :
    (mem : Memory) (p len value off : ℕ)
    → off < len
    → store_le mem p len value (p + off) ≡ value / 256 ^ off % 256
unfolding store_le byte_of
byte_at mem p len value off l =
    let here : p + off - p ≡ off = omega arith in rw (inside p off len l, here) refl

power_suc : (n : ℕ) → 256 ^ suc n ≡ 256 * 256 ^ n
power_suc n = omega (arith, pow-suc 256 n)

shifted : (value n : ℕ) → value / 256 ^ (n + 1) ≡ value / 256 ^ n / 256
shifted value n =
    let next : n + 1 ≡ suc n = omega arith in
    rw (next, pow-suc 256 n) (sym (div-div-eq-div-mul value (256 ^ n) 256))

-- The `left` bytes from the byte at `off` on are those of the number from there on.
load_le-store_le_from :
    (mem : Memory) (p len value left off : ℕ)
    → off + left ≡ len
    → load_le (store_le mem p len value) (p + off) left ≡ value / 256 ^ off % 256 ^ left
unfolding load_le
load_le-store_le_from mem p len value zero off e = omega arith
load_le-store_le_from mem p len value (suc left) off e =
    let rest = load_le-store_le_from mem p len value left (off + 1) (omega arith) in
    let next : p + off + 1 ≡ p + (off + 1) = omega arith in
    let shift = shifted value off in
    let w = value / 256 ^ off in
    rw (byte_at mem p len value off (omega arith), next, rest, shift)
      (sym (split_byte w (256 ^ left) (one-le-pow left 256 (omega arith)))
        ∙ ap (λ x. w % x) (sym (power_suc left)))

load_le-store_le :
    (mem : Memory) (p len value : ℕ) → load_le (store_le mem p len value) p len ≡ value % 256 ^ len
load_le-store_le mem p len value =
    let here : p + 0 ≡ p = omega arith in
    let all : value / 256 ^ 0 ≡ value = omega arith in
    ap (λ q. load_le (store_le mem p len value) q len) (sym here)
    ∙ load_le-store_le_from mem p len value len 0 (omega arith)
    ∙ ap (λ v. v % 256 ^ len) all

-- The machine with the bytes of a store in memory.
abbrev pub after_store : {Io : Type 0} → Machine Io → (p len value : ℕ) → Machine Io
after_store m p len value = record m { memory = store_le m.memory p len value }

module _ {Io : Type 0} (c : Config) (sim : Simif Io) (addr len value p : ℕ) (m : Machine Io)
    (there : translate c sim addr len store m ≡ ok p) (memory : sim.addr_to_mem p ≡ true) where
  is_multiple : addr % len ≡ 0 → (addr % len == 0) ≡ true
  is_multiple h = ground arith

  store_mem-aligned :
      addr % len ≡ 0 → store_mem c sim addr len value m ≡ (ok tt, after_store m p len value)
  unfolding store_mem store_phys
  store_mem-aligned h = rw (there, memory, is_multiple h) refl

  -- An aligned store to the memory returns, and a load from the same address then returns the value,
  -- cut to the size, and changes nothing, if the address still has the same place in memory.
  pub load_mem-store_mem :
      addr % len ≡ 0
      → translate c sim addr len load (after_store m p len value) ≡ ok p
      → (store_mem c sim addr len value m ≡ (ok tt, after_store m p len value))
        × (load_mem c sim addr len (after_store m p len value)
            ≡ (ok (value % 256 ^ len), after_store m p len value))
  unfolding load_mem load_phys
  load_mem-store_mem h t = (
    store_mem-aligned h,
    rw (t, memory, is_multiple h, load_le-store_le m.memory p len value) refl,
  )
