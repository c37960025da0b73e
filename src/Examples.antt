-- ===== src/Examples.antt =====
-- Runs of the modelled code at concrete inputs, and the theorems at inputs that meet their
-- hypotheses.
mod Integer
mod Machine
mod Jtag
mod Libc
mod Mmu
mod Processor
mod Torture
mod Vm
