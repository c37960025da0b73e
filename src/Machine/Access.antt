-- ===== src/Machine/Access.antt =====
-- Loads, stores and fetches: `translate`, `load_slow_path`, `store_slow_path`, `fetch_slow_path` and
-- `mmio_ok` of riscv/mmu.cc, `load_func`, `store_func`, `refill_icache` and `load_insn` of riscv/mmu.h.
-- They are those of a simulator with a tracer of loads and stores (`--dc`, riscv/cachesim.h), which is
-- interested in every range: then the slow paths do not call `refill_tlb`, no tag of the TLB's loads
-- and stores is ever set, and each load and store is a slow path. The instruction TLB, the instruction
-- cache, what the tracer counts, the triggers and the hypervisor are left out.
pub mod Round
pub mod Guard
use processorfuzz.Base.{
  ℕ, ◌+◌, ◌*◌, ◌%◌, ◌^◌, Bool, true, false, not, ◌&&◌, ◌||◌, ◌==◌, ltb, if◌then◌else◌, Option, none,
  some, bit_or,
}
use processorfuzz.Mmu.{
  Access, fetch, load, store, Mode, user_mode, supervisor_mode, machine_mode, Walk, translated,
  page_fault, access_fault, is_fetch, walk,
}
use processorfuzz.Processor.State.{
  State, Config, Trap, Outcome, ok, threw, aborted, get_field, prv_u, prv_s, prv_m,
}
use processorfuzz.Processor.Masks.{mstatus_mpp, mstatus_mprv, mstatus_sum, mstatus_mxr}
use processorfuzz.Processor.Privileged.{flag}
use processorfuzz.Processor.Protection.{pmp_ok}
use processorfuzz.Machine.Hart.{
  Machine, Reply, Simif, Action, pure, throw, lift, ◌>>=◌, load_le, store_le,
}
use processorfuzz.Machine.Alu.{sext}
use processorfuzz.Machine.Decode.{Insn, insn_length, insn_bits}
use processorfuzz.Machine.Decode.Search.{decode_insn}

-- The traps of an access that carry its address.
abbrev pub mem_trap : (cause addr : ℕ) → Trap
mem_trap cause addr = record { cause = cause; tval = addr; tval2 = 0; tinst = 0; gva = true }

abbrev pub misaligned_fault : Access → ℕ → Trap
misaligned_fault fetch addr = mem_trap 0x0 addr
misaligned_fault load addr = mem_trap 0x4 addr
misaligned_fault store addr = mem_trap 0x6 addr

abbrev pub throw_access_exception : Access → ℕ → Trap
throw_access_exception fetch addr = mem_trap 0x1 addr
throw_access_exception load addr = mem_trap 0x5 addr
throw_access_exception store addr = mem_trap 0x7 addr

abbrev pub throw_page_fault : Access → ℕ → Trap
throw_page_fault fetch addr = mem_trap 0xc addr
throw_page_fault load addr = mem_trap 0xd addr
throw_page_fault store addr = mem_trap 0xf addr

-- The level of an access: MPP where MPRV is set, except for a fetch and in debug mode.
unfoldable pub access_prv : State → Access → ℕ
access_prv s type =
    if not (is_fetch type) && not s.debug_mode && flag s.mstatus mstatus_mprv
    then get_field s.mstatus mstatus_mpp
    else s.prv

-- `none` is a level that `decode_vm_info` does not know.
abbrev pub mode_of : ℕ → Option Mode
mode_of prv =
    if prv == prv_u
    then some user_mode
    else if prv == prv_s
    then some supervisor_mode
    else if prv == prv_m
    then some machine_mode
    else none

-- What the access makes of a device's answer.
abbrev pub after_reply : {Io A : Type 0} → Machine Io → Reply A Io → Machine Io
after_reply m r = record m { io = r.io; hart = record m.hart { mip = r.mip } }

abbrev pub loaded : (vaddr len : ℕ) → Access → Option ℕ → Outcome ℕ
loaded vaddr len type (some value) = ok (value % 256 ^ len)
loaded vaddr len type none = threw (throw_access_exception type vaddr)

abbrev pub stored : (vaddr : ℕ) → Bool → Outcome (Unit {0})
stored vaddr true = ok tt
stored vaddr false = threw (throw_access_exception store vaddr)

-- The debug region is only there in debug mode.
abbrev pub mmio_ok : State → ℕ → Bool
mmio_ok s addr = s.debug_mode || ltb 0xfff addr

-- The instruction is looked up by the bits that are its own.
unfoldable pub decoded : {Io : Type 0} → ℕ → Action Io (Insn × ℕ)
decoded bits m =
    let (f, decoder) = decode_insn m.decoder (insn_bits bits) in
    (ok (f, bits), record m { decoder = decoder })

module _ {Io : Type 0} (c : Config) (sim : Simif Io) where
  -- An entry of a page table, which is read as the supervisor.
  abbrev pub read_pte : Machine Io → ℕ → Option ℕ
  read_pte m p =
      if sim.addr_to_mem p && pmp_ok c m.hart p 8 load prv_s
      then some (load_le m.memory p 8)
      else none

  abbrev pub walked : Machine Io → (addr : ℕ) → Access → Walk
  walked m addr type = elim (mode_of (access_prv m.hart type)) [
    | none ↦ Walk.aborted
    | some mode ↦
        walk (read_pte m) type mode (flag m.hart.mstatus mstatus_sum)
          (flag m.hart.mstatus mstatus_mxr) addr m.hart.satp
  ]

  -- What the walk found, with the offset in the page, where PMP allows the access.
  abbrev pub protected : (addr len : ℕ) → Access → State → Walk → Outcome ℕ
  protected addr len type s (translated page) =
      let paddr = bit_or page (addr % 2 ^ 12) in
      if pmp_ok c s paddr len type (access_prv s type)
      then ok paddr
      else threw (throw_access_exception type addr)
  protected addr len type s page_fault = threw (throw_page_fault type addr)
  protected addr len type s access_fault = threw (throw_access_exception type addr)
  protected addr len type s Walk.aborted = aborted

  unfoldable pub translate : (addr len : ℕ) → Access → Machine Io → Outcome ℕ
  translate addr len type m = protected addr len type m.hart (walked m addr type)

  unfoldable pub mmio_load : (vaddr paddr len : ℕ) → Access → Action Io ℕ
  mmio_load vaddr paddr len type m =
      let r = sim.mmio_load m.io m.hart.mip paddr len in
      if mmio_ok m.hart paddr
      then (loaded vaddr len type r.answer, after_reply m r)
      else (threw (throw_access_exception type vaddr), m)

  unfoldable pub mmio_store : (vaddr paddr len value : ℕ) → Action Io (Unit {0})
  mmio_store vaddr paddr len value m =
      let r = sim.mmio_store m.io m.hart.mip paddr len (value % 256 ^ len) in
      if mmio_ok m.hart paddr
      then (stored vaddr r.answer, after_reply m r)
      else (threw (throw_access_exception store vaddr), m)

  -- The bytes at a physical address, from the memory or from a device.
  unfoldable pub load_phys : (vaddr paddr len : ℕ) → Access → Action Io ℕ
  load_phys vaddr paddr len type m =
      if sim.addr_to_mem paddr
      then (ok (load_le m.memory paddr len), m)
      else mmio_load vaddr paddr len type m

  unfoldable pub store_phys : (vaddr paddr len value : ℕ) → Action Io (Unit {0})
  store_phys vaddr paddr len value m =
      if sim.addr_to_mem paddr
      then (ok tt, record m { memory = store_le m.memory paddr len value })
      else mmio_store vaddr paddr len value m

  -- `load_func` where the TLB does not have the page: the alignment is tested after the access.
  unfoldable pub load_mem : (addr len : ℕ) → Action Io ℕ
  load_mem addr len = do
    paddr ← lift (translate addr len load)
    value ← load_phys addr paddr len load
    if addr % len == 0 then pure value else throw (misaligned_fault load addr)

  -- `store_func` where the TLB does not have the page: so is that of a store, which has then written.
  unfoldable pub store_mem : (addr len value : ℕ) → Action Io (Unit {0})
  store_mem addr len value = do
    paddr ← lift (translate addr len store)
    u ← store_phys addr paddr len value
    if addr % len == 0 then pure tt else throw (misaligned_fault store addr)

  -- Two bytes of an instruction.
  unfoldable pub fetch_parcel : ℕ → Action Io ℕ
  fetch_parcel addr = do paddr ← lift (translate addr 2 fetch); load_phys addr paddr 2 fetch

  -- The instruction whose first two bytes are `low`; its last two bytes are sign-extended.
  unfoldable pub load_rest : (addr low : ℕ) → Action Io ℕ
  load_rest addr low =
      let four =
        fetch_parcel ((addr + 2) % 2 ^ 64) >>= λ p. pure ((low + sext 16 p * 2 ^ 16) % 2 ^ 64) in
      let six = fetch_parcel ((addr + 4) % 2 ^ 64) >>= λ q.
      fetch_parcel ((addr + 2) % 2 ^ 64) >>= λ p.
      pure ((low + p * 2 ^ 16 + sext 16 q * 2 ^ 32) % 2 ^ 64) in
      let eight = fetch_parcel ((addr + 6) % 2 ^ 64) >>= λ r.
      fetch_parcel ((addr + 4) % 2 ^ 64) >>= λ q. fetch_parcel ((addr + 2) % 2 ^ 64) >>= λ p.
      pure ((low + p * 2 ^ 16 + q * 2 ^ 32 + sext 16 r * 2 ^ 48) % 2 ^ 64) in
      if insn_length low == 4
      then four
      else if insn_length low == 2
      then pure (sext 16 low)
      else if insn_length low == 6
      then six
      else eight

  -- The decoded instruction at an address.
  unfoldable pub load_insn : ℕ → Action Io (Insn × ℕ)
  load_insn addr = do low ← fetch_parcel addr; bits ← load_rest addr low; decoded bits
