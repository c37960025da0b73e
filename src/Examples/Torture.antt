-- ===== src/Examples/Torture.antt =====
-- The accesses of the other harts, for two random numbers.
use processorfuzz.Base.{◌+◌, ◌*◌, ◌%◌, ◌≤◌, ◌≡◌, refl, true, false}
use processorfuzz.Vm.Lfsr.{lfsr63}
use processorfuzz.Vm.Machine.{dram_base, pgsize}
use processorfuzz.Vm.Torture.{torture_step, torture_step_bounds}

torture_step_bounds_example :
    (dram_base ≤ (torture_step 0xffff_ffff).0.paddr)
    × ((torture_step 0xffff_ffff).0.paddr + 4 ≤ dram_base + 256 * pgsize)
    × ((torture_step 0xffff_ffff).0.paddr % 4 ≡ 0)
torture_step_bounds_example = torture_step_bounds 0xffff_ffff

torture_runs :
    (torture_step 0x12_3457 ≡ (record { paddr = 0x8002_3454; is_amo = true }, 0x9_1a2b))
    × (torture_step 6 ≡ (record { paddr = 0x8000_0004; is_amo = false }, 0x4000_0000_0000_0003))
unfolding torture_step lfsr63
torture_runs = (refl, refl)
