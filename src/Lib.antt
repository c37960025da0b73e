-- ===== src/Lib.antt =====
-- ProcessorFuzz runs generated RISC-V tests on an ISA simulator and on a processor's RTL and compares
-- the two. This library models C code on the path of a test: the virtual-memory environment that is
-- linked into a test and handles its page faults, and the parts of the ISA simulator that it runs on.
--
-- - Libc: Template/include/v/string.c, one function for each of its functions and one for each loop.
--   Memory is a function from addresses to bytes (Libc/Bytes), for RV64, and addresses do not wrap.
--   Each loop takes fuel, and `none` means that it ran out; enough is one more than the rounds that
--   the loop makes, so more than the number of bytes. Proofs: Libc/Copy, Libc/Fill, Libc/Compare, Libc/Strings,
--   Libc/Decimal.
-- - Mmu: `mmu_t::walk` of original/Fuzzer/ISASim/riscv-isa-sim/riscv/mmu.cc and `decode_vm_info` of
--   riscv/mmu.h, for RV64, without the hypervisor and without RISCV_ENABLE_DIRTY. The read of an
--   entry is an argument, which stands for the simulator's memory and its PMP check. Proofs: Mmu/Leaf,
--   Mmu/Rounds, Mmu/Allowed.
-- - Processor: riscv/processor.cc and processor.h of the simulator, on RV64 (max_xlen is 64),
--   with the CSR instructions and mret, sret, dret, ecall, ebreak and sfence.vma of riscv/insns.
--   Processor/State holds `state_t`, what is fixed at the start (`Config`: the ISA string, the PMP
--   regions, the hart's number), traps, and outcomes: a normal end, a thrown trap, or `abort`. A
--   register is a number below 2 ^ 64. Processor/Number gives the number of a CSR its name,
--   Status, Interrupts, Registers, Hypervisor and Debug have one function for each case of
--   `set_csr`, which Write puts together, Views and Read are `get_csr`, Trap is `take_trap` and
--   `take_interrupt`, Privileged the instructions, Reset the resets, and Protection is `pmp_ok` of
--   riscv/mmu.cc. The register files, `serialized` and `single_step` are with Machine; the
--   TLB and the commit log are left out. Proofs: Processor/Legal and the files below it (the legal values of the registers,
--   for each write and along runs), Pmp, Mstatus (the bits of `mstatus` after a write), Return,
--   Taken, Served (interrupts), Access, Supervisor and Protection/First.
-- - Machine: the instructions and the loop that runs them, for a hart with I, M, S and U. Machine/Hart
--   has the hart with its registers, the memory, the devices behind `simif_t` (an argument: which
--   addresses are memory, and what `mmio_load` and `mmio_store` answer and do to the pending
--   interrupts), and actions, which keep their changes when they throw. Machine/Alu has one function for
--   each of the arithmetic instructions of riscv/insns, Machine/Decode the fields of riscv/decode.h, and
--   below it Table the encodings of riscv/encoding.h and Search the decoder of riscv/processor.cc with
--   its cache. Machine/Access is `translate` and the load, store and fetch paths of riscv/mmu.cc and
--   mmu.h, by `Mmu`'s walk and `Processor`'s `pmp_ok`; Machine/Values and Machine/Execute are the
--   instructions; Machine/Run is `processor_t::step` of riscv/execute.cc with the interrupts of
--   riscv/psint.cc. The inner loop has one round for each instruction that is left, and the outer loop
--   takes fuel: `step n` gives it 3 n + 2, which is enough, since a round that goes on retires an
--   instruction, or serializes the state so that a CSR instruction is run again, or ends a single step.
--   An instruction of another extension is illegal, as it is on such a hart. The loads
--   and stores are those of a simulator with a tracer of both (`--dc`, riscv/cachesim.h), whose slow
--   paths never fill the TLB for them, so that each one is translated and checked. The instruction TLB
--   and cache are left out, so a hart that changes its page tables or its code without sfence.vma or
--   fence.i fetches by the change at once; so are triggers and the commit log.
--   Proofs: Machine/Divide, Machine/Decode/Lookup, Sorted and Refine (the decoder), Machine/Access/Round
--   and Guard, Machine/Stores, Machine/Sound and the files below it (what every instruction keeps),
--   Machine/Run/Rank and Asks (the rounds that
--   retire nothing), Ends and Sound.
-- - Vm: Template/include/v/vm.c and riscv_test.h. Vm/Machine holds the state (the last-level user
--   table, the arrays of free nodes, the ends of the free list, physical memory, SUM) and the monad
--   of operations, whose outcomes are a normal end, the `ecall` of a failed assertion, which ends the
--   test, and a page fault in the supervisor's own copy. Vm holds `evict`, `handle_fault` and
--   `handle_trap`, Vm/Boot the tables, `satp` and free list of `vm_boot`, Vm/Torture a round of
--   `coherence_torture`. The handler reaches a user page by the last round of `Mmu`'s walk, and
--   copies pages with `memcpy` and `memcmp` of `Libc`, at fuel for more than the bytes of a page.
--   No TLB is modelled, so `flush_page` does nothing. The uninitialised variable `random` of
--   `handle_fault` is the argument `seed`. Proofs: Vm/Entry (entries), Vm/FirstTouch and Vm/Marks
--   (`handle_fault`), Vm/FreeList and Vm/Evict (`evict`), Vm/Trap, Vm/Lfsr, Vm/Boot/Nodes and
--   Vm/Boot/Tables.
-- - Integer: riscv/arith.h of the simulator. A word is its bit pattern, a signed operation that
--   overflows wraps, and the width of the saturating templates is an argument. Proofs:
--   Integer/Multiply, Integer/Sign (sign bits), Integer/Overflow, Integer/Signed, Integer/Saturate,
--   Integer/Fields.
-- - Jtag: riscv/jtag_dtm.h and riscv/jtag_dtm.cc, the port through which a debugger reaches the hart.
--   The state is `jtag_dtm_t` with the state of the debug module behind it, and the module's operations
--   (`dmi_read`, `dmi_write`, `run_test_idle`) are an argument. `set_pins` is composed of the two
--   switches around the change of state; `clock`, one cycle, is the way a host drives it. The length of
--   the data register is the host's to keep within 64 bits, where the shift is defined. Proofs:
--   Jtag/Reset, Jtag/Scan (what a scan exchanges), Jtag/Stuck (a port that was asked too soon).
-- - Examples: runs at concrete inputs, and the theorems at inputs that meet their hypotheses.
--
-- Not modelled: the console output of vm.c, the control registers other than `satp` in `vm_boot`, the
-- Sv48 and Sv32 branches, the assembly around the handler, the instructions of the
-- other extensions, the TLB of a simulator without a tracer, the triggers' matches, the vector unit and the devices of the simulator, SoftFloat
-- and libfdt, which are other projects' libraries, and the Python fuzzing loop.
pub mod Base
pub mod Libc
pub mod Vm
pub mod Integer
pub mod Processor
pub mod Machine
pub mod Mmu
pub mod Jtag
mod Examples
