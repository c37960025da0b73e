-- ===== src/Machine/Sound/Access.antt =====
-- Loads, stores and fetches keep the machine sound, whatever the devices answer.
use processorfuzz.Base.{
  ℕ, zero, suc, ◌+◌, ◌%◌, ◌^◌, ◌<◌, arith, Bool, true, false, ◌==◌, ◌&&◌, ltb, leb, if◌then◌else◌,
  Option, none, some,
}
use native.Mathlib.Nat.{pow-suc, mod-lt, one-le-pow}
use processorfuzz.Libc.Bytes.{Memory, IsBytes, byte_of}
use processorfuzz.Mmu.{Access, fetch, load, store}
use processorfuzz.Processor.State.{Config, ok, Ensures}
use processorfuzz.Machine.Alu.{sext}
use processorfuzz.Machine.Decode.{insn_length, insn_bits}
use processorfuzz.Machine.Decode.Refine.{decode_insn-Decodes}
use processorfuzz.Machine.Hart.{Machine, Reply, Simif, Action, pure, throw, bind, load_le, store_le}
use processorfuzz.Machine.Access.{
  translate, mmio_ok, mmio_load, mmio_store, load_phys, store_phys, load_mem, store_mem,
  fetch_parcel, load_rest, load_insn, decoded, misaligned_fault, after_reply, loaded, stored,
}
use processorfuzz.Machine.Sound.{
  IsSound, Keeps, bind-Keeps, mip-IsLegal, Any, Ensures-Any, Keeps-if, Keeps-choice, threw-Keeps,
}
use processorfuzz.Machine.Sound.Words.{IsWord}

-- The bound of `len` bytes.
abbrev pub Fits : ℕ → ℕ → Type 0
Fits len v = v < 256 ^ len

load_le-Fits : (mem : Memory) (p len : ℕ) → IsBytes mem → Fits len (load_le mem p len)
unfolding load_le
load_le-Fits mem p zero h = omega arith
load_le-Fits mem p (suc len) h = omega (arith, pow-suc 256 len, h p, load_le-Fits mem (p + 1) len h)

store_le-IsBytes :
    (mem : Memory) (p len value : ℕ) → IsBytes mem → IsBytes (store_le mem p len value)
unfolding store_le byte_of
store_le-IsBytes mem p len value h a =
    chosen (leb p a && ltb a (p + len)) _ (mem a) (omega arith) (h a)
  where
    chosen : (b : Bool) (x y : ℕ) → x < 256 → y < 256 → (if b then x else y) < 256
    chosen true x y p q = p
    chosen false x y p q = q

cut-Fits : (len v : ℕ) → Fits len (v % 256 ^ len)
cut-Fits len v = mod-lt v (one-le-pow len 256 (omega arith))

loaded-Fits :
    (vaddr len : ℕ) (type : Access) (o : Option ℕ) → Ensures (Fits len) (loaded vaddr len type o)
loaded-Fits vaddr len type (some value) = cut-Fits len value
loaded-Fits vaddr len type none = tt

sext16-IsWord : (x : ℕ) → IsWord (sext 16 x)
sext16-IsWord x = ground arith

module _ {Io : Type 0} (c : Config) (sim : Simif Io) where
  answered : {A : Type 0} (m : Machine Io) (r : Reply A Io) → IsSound m → IsSound (after_reply m r)
  answered m r v = record {
    legal = mip-IsLegal m.hart r.mip v.legal;
    zero_reg = v.zero_reg;
    words = v.words;
    bytes = v.bytes;
    decodes = v.decodes;
  }

  load_phys-Keeps :
      (vaddr paddr len : ℕ) (type : Access) (m : Machine Io)
      → IsSound m
      → Keeps (Fits len) (load_phys c sim vaddr paddr len type m)
  unfolding load_phys mmio_load
  load_phys-Keeps vaddr paddr len type m v =
      let r = sim.mmio_load m.io m.hart.mip paddr len in
      Keeps-if (Fits len) (sim.addr_to_mem paddr) _ _
        (record { kept = v; result = load_le-Fits m.memory paddr len v.bytes })
        (Keeps-if (Fits len) (mmio_ok m.hart paddr) _ _
          (record { kept = answered m r v; result = loaded-Fits vaddr len type r.answer })
          (threw-Keeps (Fits len) _ m v))

  store_phys-Keeps :
      (vaddr paddr len value : ℕ) (m : Machine Io)
      → IsSound m
      → Keeps Any (store_phys c sim vaddr paddr len value m)
  unfolding store_phys mmio_store
  store_phys-Keeps vaddr paddr len value m v =
      let r = sim.mmio_store m.io m.hart.mip paddr len (value % 256 ^ len) in
      Keeps-if Any (sim.addr_to_mem paddr) _ _
        (record {
          kept = record {
            legal = v.legal;
            zero_reg = v.zero_reg;
            words = v.words;
            bytes = store_le-IsBytes m.memory paddr len value v.bytes;
            decodes = v.decodes;
          };
          result = tt;
        })
        (Keeps-if Any (mmio_ok m.hart paddr) _ _
          (record { kept = answered m r v; result = Ensures-Any (stored vaddr r.answer) })
          (threw-Keeps Any _ m v))

  translated-Keeps :
      (addr len : ℕ) (type : Access) (m : Machine Io)
      → IsSound m
      → Keeps Any (translate c sim addr len type m, m)
  translated-Keeps addr len type m v = record { kept = v; result = Ensures-Any _ }

  pub load_mem-Keeps :
      (addr len : ℕ) (m : Machine Io) → IsSound m → Keeps (Fits len) (load_mem c sim addr len m)
  unfolding load_mem
  load_mem-Keeps addr len m v =
      bind-Keeps Any (Fits len) (translate c sim addr len load m, m) _
        (translated-Keeps addr len load m v)
        (λ paddr m1 u v1.
          bind-Keeps (Fits len) (Fits len) (load_phys c sim addr paddr len load m1) _
            (load_phys-Keeps addr paddr len load m1 v1)
            (λ value m2 f v2.
              Keeps-choice (Fits len) (addr % len == 0) (pure value)
                (throw (misaligned_fault load addr)) m2 (record { kept = v2; result = f })
                (threw-Keeps (Fits len) _ m2 v2)))

  pub store_mem-Keeps :
      (addr len value : ℕ) (m : Machine Io)
      → IsSound m
      → Keeps Any (store_mem c sim addr len value m)
  unfolding store_mem
  store_mem-Keeps addr len value m v =
      bind-Keeps Any Any (translate c sim addr len store m, m) _
        (translated-Keeps addr len store m v)
        (λ paddr m1 u v1.
          bind-Keeps Any Any (store_phys c sim addr paddr len value m1) _
            (store_phys-Keeps addr paddr len value m1 v1)
            (λ w m2 f v2.
              Keeps-choice Any (addr % len == 0) (pure tt) (throw (misaligned_fault store addr)) m2
                (record { kept = v2; result = tt }) (threw-Keeps Any _ m2 v2)))

  fetch_parcel-Keeps :
      (addr : ℕ) (m : Machine Io) → IsSound m → Keeps (Fits 2) (fetch_parcel c sim addr m)
  unfolding fetch_parcel
  fetch_parcel-Keeps addr m v =
      bind-Keeps Any (Fits 2) (translate c sim addr 2 fetch m, m) _
        (translated-Keeps addr 2 fetch m v)
        (λ paddr m1 u v1. load_phys-Keeps addr paddr 2 fetch m1 v1)

  cut-IsWord : (n : ℕ) → IsWord (n % 2 ^ 64)
  cut-IsWord n = omega arith

  -- A parcel, and what follows it.
  parcel_then :
      (addr : ℕ) (m : Machine Io) (k : ℕ → Action Io ℕ)
      → IsSound m
      → ((p : ℕ) (m' : Machine Io) → IsSound m' → Keeps IsWord (k p m'))
      → Keeps IsWord (bind (fetch_parcel c sim addr m) k)
  parcel_then addr m k v h =
      bind-Keeps (Fits 2) IsWord (fetch_parcel c sim addr m) k (fetch_parcel-Keeps addr m v)
        (λ p m' f v'. h p m' v')

  ends_with : (n : ℕ) (m : Machine Io) → IsSound m → Keeps IsWord (ok (n % 2 ^ 64), m)
  ends_with n m v = record { kept = v; result = cut-IsWord n }

  load_rest-Keeps :
      (addr low : ℕ) (m : Machine Io) → IsSound m → Keeps IsWord (load_rest c sim addr low m)
  unfolding load_rest
  load_rest-Keeps addr low m v =
      Keeps-choice IsWord (insn_length low == 4) _ _ m
        (parcel_then ((addr + 2) % 2 ^ 64) m _ v (λ p m' v'. ends_with _ m' v'))
        (Keeps-choice IsWord (insn_length low == 2) _ _ m
          (record { kept = v; result = sext16-IsWord low })
          (Keeps-choice IsWord (insn_length low == 6) _ _ m
            (parcel_then ((addr + 4) % 2 ^ 64) m _ v
              (λ q m1 v1. parcel_then ((addr + 2) % 2 ^ 64) m1 _ v1 (λ p m2 v2. ends_with _ m2 v2)))
            (parcel_then ((addr + 6) % 2 ^ 64) m _ v (λ r m1 v1.
              parcel_then ((addr + 4) % 2 ^ 64) m1 _ v1 (λ q m2 v2.
                parcel_then ((addr + 2) % 2 ^ 64) m2 _ v2 (λ p m3 v3. ends_with _ m3 v3))))))

  decoded-Keeps :
      (bits : ℕ) (m : Machine Io)
      → IsWord bits
      → IsSound m
      → Keeps (λ f. IsWord f.1) (decoded bits m)
  unfolding decoded
  decoded-Keeps bits m w v = record {
    kept = record {
      legal = v.legal;
      zero_reg = v.zero_reg;
      words = v.words;
      bytes = v.bytes;
      decodes = (decode_insn-Decodes m.decoder (insn_bits bits) v.decodes).kept;
    };
    result = w;
  }

  -- A fetch keeps the machine sound, and its instruction is a word.
  pub load_insn-Keeps :
      (addr : ℕ) (m : Machine Io) → IsSound m → Keeps (λ f. IsWord f.1) (load_insn c sim addr m)
  unfolding load_insn
  load_insn-Keeps addr m v =
      bind-Keeps (Fits 2) (λ f. IsWord f.1) (fetch_parcel c sim addr m) _
        (fetch_parcel-Keeps addr m v)
        (λ low m1 f v1.
          bind-Keeps IsWord (λ f. IsWord f.1) (load_rest c sim addr low m1) _
            (load_rest-Keeps addr low m1 v1) (λ bits m2 w v2. decoded-Keeps bits m2 w v2))
