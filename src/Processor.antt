-- ===== src/Processor.antt =====
-- The processor state of the ISA simulator: riscv/processor.cc and processor.h of
-- original/Fuzzer/ISASim/riscv-isa-sim, on RV64 (xlen and max_xlen are 64).
pub mod Number
pub mod State
pub mod Masks
pub mod Status
pub mod Interrupts
pub mod Registers
pub mod Hypervisor
pub mod Debug
pub mod Write
pub mod Views
pub mod Read
pub mod Trap
pub mod Privileged
pub mod Reset
pub mod Pmp
pub mod Legal
pub mod Mstatus
pub mod Return
pub mod Taken
pub mod Served
pub mod Protection
pub mod Access
pub mod Supervisor
