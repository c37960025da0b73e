-- ===== src/Machine.antt =====
-- A hart with its registers and memory, as the loop of riscv/execute.cc of
-- original/Fuzzer/ISASim/riscv-isa-sim runs it.
pub mod Alu
pub mod Divide
pub mod Decode
pub mod Hart
pub mod Access
pub mod Values
pub mod Execute
pub mod Run
pub mod Sound
pub mod Stores
