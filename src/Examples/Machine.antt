-- ===== src/Examples/Machine.antt =====
-- A hart with I, M, S and U, with a memory from 0x8000_0000 on, which holds a program, and one device that answers zero.
use processorfuzz.Base.{
  ℕ, ◌+◌, ◌-◌, ◌*◌, ◌^◌, ◌%◌, ◌≡◌, refl, arith, true, false, leb, ◌==◌, ltb, ◌/◌, ◌&&◌,
  if◌then◌else◌, [], ◌∷◌, none, some, ◌⊎◌,
}
use processorfuzz.Processor.State.{State, Config, ok, threw}
use processorfuzz.Processor.Reset.{reset, reset_state}
use processorfuzz.Processor.Legal.Reset.{reset-IsLegal}
use processorfuzz.Machine.Values.{op_value, imm_value}
use processorfuzz.Machine.Alu.{insn_addi, insn_slli, insn_sub, insn_div, insn_rem}
use processorfuzz.Machine.Divide.{IsRemainder, div-rem}
use processorfuzz.Machine.Decode.{Insn, rv64_sd, rv64_sw, s_imm, insn_length, insn_bits, i_imm}
use processorfuzz.Machine.Decode.Table.{instructions}
use processorfuzz.Machine.Decode.Search.{
  build_opcode_map, decode_insn, search, reordered, insert, sort,
}
use processorfuzz.Machine.Decode.Refine.{
  build_opcode_map-IsDecoder, decode_all, lookup_all, decode_all-eq-lookup_all,
}
use processorfuzz.Machine.Hart.{Machine, step_none, Simif, load_le, store_le, write_reg}
use processorfuzz.Processor.State.{get_field}
use processorfuzz.Mmu.{walk, decode_vm_info}
use processorfuzz.Processor.Privileged.{csrrs, access_csr, validate_csr}
use processorfuzz.Processor.Read.{get_csr, read_csr}
use processorfuzz.Processor.Number.{csr_of}
use processorfuzz.Processor.Protection.{
  pmp_ok, pmp_from, scan, scan_sectors, has_sector, tor_end, permits,
}
use processorfuzz.Machine.Access.{
  load_insn, load_rest, fetch_parcel, load_phys, decoded, access_prv, translate, load_mem,
  store_mem,
}
use processorfuzz.Machine.Access.Round.{load_mem-store_mem, after_store}
use processorfuzz.Machine.Access.Guard.{Guarded}
use processorfuzz.Machine.Execute.{
  execute_insn, exec_op, exec_system, csr_insn, csr_access, serialize,
}
use processorfuzz.Machine.Stores.{execute_insn-Guarded, execute_insn-stores}
use processorfuzz.Machine.Sound.{IsSound}
use processorfuzz.Processor.Trap.{take_interrupt}
use processorfuzz.Libc.Bytes.{byte_of}
use processorfuzz.Machine.Run.{
  run_outer, run_inner, before_insn, slow_path, instruction, enter_halt, assert_int,
  take_pending_interrupt, Interrupts, hr_none, step,
}
use processorfuzz.Machine.Run.Sound.{step-IsSound}

abbrev config : Config
config = record {
  max_isa = 0x8000_0000_0014_1100;
  has_coprocessor = false;
  n_pmp = 8;
  lg_pmp_granularity = 2;
  hart_id = 0;
  vlen = 128;
}

-- The state of the device counts the loads.
abbrev simif : Simif ℕ
simif = record {
  addr_to_mem = λ a. leb 0x8000_0000 a;
  mmio_load = λ io mip addr len. record { answer = some 0; io = io + 1; mip = mip };
  mmio_store = λ io mip addr len value. record { answer = true; io = io; mip = mip };
}

-- A timer interrupt at the second instruction.
abbrev intrs : Interrupts
intrs pc = if pc == 0x8000_0004 then some 1 else none

-- addi x10, x0, 5; slli x10, x10, 2; sub x11, x0, x10.
abbrev program : ℕ → ℕ
program a =
    store_le (store_le (store_le (λ b. 0) 0x8000_0000 4 0x0050_0513) 0x8000_0004 4 0x0025_1513)
      0x8000_0008 4 0x40a0_05b3 a

abbrev machine_of : State → Machine ℕ
machine_of s = record {
  hart = s;
  xpr = λ i. 0;
  memory = λ a. a % 256;
  io = 0;
  decoder = build_opcode_map instructions;
  serialized = false;
  single_step = step_none;
}

abbrev after_reset : Machine ℕ
after_reset = machine_of (reset config false)

after_reset-IsSound : IsSound after_reset
after_reset-IsSound = record {
  legal = reset-IsLegal config false;
  zero_reg = refl;
  words = λ i. omega arith;
  bytes = λ a. omega arith;
  decodes = build_opcode_map-IsDecoder;
}

step-IsSound_example : IsSound (step config simif intrs false hr_none 3 after_reset).machine
step-IsSound_example =
    step-IsSound config simif intrs false hr_none 3 after_reset after_reset-IsSound

-- The second and the third are in the cache, the last matches nothing.
decode_all-eq-lookup_all_example :
    decode_all (build_opcode_map instructions) (0x0050_0513 ∷ 0x40a0_05b3 ∷ 0x0050_0513 ∷ 0 ∷ [])
    ≡ lookup_all (0x0050_0513 ∷ 0x40a0_05b3 ∷ 0x0050_0513 ∷ 0 ∷ [])
decode_all-eq-lookup_all_example =
    decode_all-eq-lookup_all (0x0050_0513 ∷ 0x40a0_05b3 ∷ 0x0050_0513 ∷ 0 ∷ [])

-- sd x10, 8(x2).
execute_insn-Guarded_example :
    Guarded config simif after_reset
      (execute_insn config simif (Insn.store rv64_sd) 0x00a1_3423 0x8000_0000 after_reset).1
execute_insn-Guarded_example =
    execute_insn-Guarded config simif 0x00a1_3423 0x8000_0000 after_reset (Insn.store rv64_sd)

-- Before any trap: machine mode, no address translation.
abbrev plain : Machine ℕ
plain = machine_of (reset_state 0x8000_0000_0014_1100)

abbrev stored : (addr : ℕ) → Machine ℕ
stored addr = after_store plain addr 4 0x1_2345_6789

load_mem-store_mem_example :
    (store_mem config simif 0x8000_1000 4 0x1_2345_6789 plain ≡ (ok tt, stored 0x8000_1000))
    × (load_mem config simif 0x8000_1000 4 (stored 0x8000_1000)
        ≡ (ok (0x1_2345_6789 % 256 ^ 4), stored 0x8000_1000))
unfolding translate access_prv get_field walk decode_vm_info pmp_ok pmp_from scan scan_sectors
    has_sector tor_end permits reset_state
load_mem-store_mem_example =
    load_mem-store_mem config simif 0x8000_1000 4 0x1_2345_6789 0x8000_1000 plain refl refl
      (omega arith) refl

-- sw x10, 9(x2), with a word in x10 and an address in x2.
abbrev storing : Machine ℕ
storing = record plain { xpr = λ i. if i == 2 then 0x8000_1000 else 0x1_2345_6789 }

execute_insn-stores_example :
    execute_insn config simif (Insn.store rv64_sw) 0x00a1_24a3 0x8000_0000 storing ≡ (
      threw (record { cause = 6; tval = 0x8000_1009; tval2 = 0; tinst = 0; gva = true }),
      record storing {
        memory = λ a.
            if leb 0x8000_1009 a && ltb a (0x8000_1009 + 4)
            then 0x1_2345_6789 / 256 ^ (a - 0x8000_1009) % 256
            else storing.memory a;
      },
    )
unfolding translate access_prv get_field walk decode_vm_info pmp_ok pmp_from scan scan_sectors
    has_sector tor_end permits reset_state s_imm
execute_insn-stores_example =
    execute_insn-stores config simif rv64_sw 0x00a1_24a3 0x8000_0000 0x8000_1009 storing refl refl

abbrev minus_seven : ℕ
minus_seven = 2 ^ 64 - 7

abbrev two : ℕ
two = 2

div-rem_example :
    ((insn_div minus_seven two * two + insn_rem minus_seven two) % 2 ^ 64 ≡ minus_seven)
    × (((two ≡ 0) × (insn_div minus_seven two ≡ 2 ^ 64 - 1))
        ⊎ IsRemainder minus_seven two (insn_rem minus_seven two))
div-rem_example = div-rem minus_seven two (omega arith) (omega arith)

abbrev started : Machine ℕ
started = record plain { hart = record plain.hart { pc = 0x8000_0000 }; memory = program }

-- The program runs: three instructions retired, -20 in x11, and the next address.
program_run :
    let r = step config simif (λ pc. none) false hr_none 3 started in
    (r.machine.xpr 10 ≡ 20) × (r.machine.xpr 11 ≡ 2 ^ 64 - 20) × (r.machine.hart.pc ≡ 0x8000_000c)
unfolding translate access_prv get_field walk decode_vm_info pmp_ok pmp_from scan scan_sectors
    has_sector tor_end permits reset_state step run_outer run_inner before_insn slow_path
    instruction enter_halt assert_int take_pending_interrupt take_interrupt load_insn load_rest
    fetch_parcel load_phys decoded decode_insn search reordered insert sort build_opcode_map
    insn_length insn_bits execute_insn exec_op op_value imm_value insn_addi insn_slli insn_sub i_imm
    write_reg load_le store_le byte_of
program_run = (refl, refl, refl)

-- addi x10, x0, 5; slli x10, x10, 2; csrr x11, minstret.
abbrev counting : Machine ℕ
counting = record started { memory = store_le program 0x8000_0008 4 0xb020_25f3 }

-- The instruction on the counter is run again when the loop has counted the two before it.
counting_run :
    let r = step config simif (λ pc. none) false hr_none 3 counting in
    (r.machine.xpr 11 ≡ 2) × (r.machine.hart.minstret ≡ 3) × (r.machine.serialized ≡ false)
unfolding translate access_prv get_field walk decode_vm_info pmp_ok pmp_from scan scan_sectors
    has_sector tor_end permits reset_state step run_outer run_inner before_insn slow_path
    instruction enter_halt assert_int take_pending_interrupt take_interrupt load_insn load_rest
    fetch_parcel load_phys decoded decode_insn search reordered insert sort build_opcode_map
    insn_length insn_bits execute_insn exec_op op_value imm_value insn_addi insn_slli insn_sub i_imm
    write_reg load_le store_le byte_of exec_system csr_insn csr_access csrrs access_csr validate_csr
    get_csr read_csr csr_of serialize
counting_run = (refl, refl, refl)
