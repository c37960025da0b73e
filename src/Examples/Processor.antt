-- ===== src/Examples/Processor.antt =====
-- A hart with the extensions A, C, D, F, I, M, S and U, eight PMP regions and no guests.
use processorfuzz.Mmu.{load}
use processorfuzz.Processor.Protection.{tor_end, pmp_ok}
use processorfuzz.Processor.Protection.First.{touches, pmp_ok-first}
use processorfuzz.Base.{
  inl, zero, suc, ◌<◌, arith, ℕ, ◌^◌, ◌≡◌, ◌≢◌, refl, true, false, bit_and, bit_or, ◌==◌,
  if◌then◌else◌,
}
use processorfuzz.Base.Digits.{test}
use processorfuzz.Processor.Number.{csr_of}
use processorfuzz.Processor.State.{
  State, Config, Trap, ok, aborted, threw, Ensures, supports, prv_u,
}
use processorfuzz.Processor.Status.{legalize_privilege, set_sstatus, is_dirty}
use processorfuzz.Processor.Registers.{set_mtvec}
use processorfuzz.Processor.Write.{write_csr, set_csr}
use processorfuzz.Processor.Trap.{
  ctz_from, ctz, trap_to_m, enabled_interrupts, prioritized, first_enabled, take_interrupt,
  take_trap,
}
use processorfuzz.Processor.Privileged.{mret, access_csr, plain_trap}
use processorfuzz.Processor.Views.{pc_alignment_mask}
use processorfuzz.Processor.Reset.{reset_state, reset}
use processorfuzz.Processor.Legal.{IsLegal, StatusLegal}
use processorfuzz.Processor.Legal.Run.{Reach, start, after, csr_write, trap, next, Reach-IsLegal}
use processorfuzz.Processor.Legal.Writes.{set_csr-StatusLegal}
use processorfuzz.Processor.Pmp.{KeepsEntry, set_csr-KeepsEntry}
use processorfuzz.Processor.Return.{mret-trap_to_m}
use processorfuzz.Processor.Taken.{take_interrupt_sound, take_interrupt-masked}
use processorfuzz.Processor.Served.{take_interrupt_served}
use processorfuzz.Processor.Access.{IsRefusal, access_csr-denied}
use processorfuzz.Processor.Supervisor.{SameMachine, set_sstatus-SameMachine}

abbrev hart : Config
hart = record {
  max_isa = 0x8000_0000_0014_112d;
  has_coprocessor = false;
  n_pmp = 8;
  lg_pmp_granularity = 2;
  hart_id = 0;
  vlen = 128;
}

-- The registers after the reset of their record, which compute.
abbrev plain : State
plain = reset_state 0x8000_0000_0014_112d

-- A user's call from 0x8000_2000.
abbrev user : State
user = record plain { prv = prv_u; pc = 0x8000_2000; mtvec = 0x8000_0100; mstatus = 0x88 }

abbrev call : Trap
call = plain_trap 8

-- A vector is set, and a call goes there.
abbrev vectored : State
vectored = set_mtvec (reset hart false) 0x8000_0101

vectored_run : Reach hart (record (take_trap hart vectored call vectored.pc) { pc = 0x8000_0104 })
unfolding set_csr write_csr csr_of
vectored_run =
    after (after (after (start false) (csr_write 0x305 0x8000_0101 refl)) (trap call))
      (next 0x8000_0104 refl)

Reach-IsLegal_example :
    IsLegal (record (take_trap hart vectored call vectored.pc) { pc = 0x8000_0104 })
Reach-IsLegal_example = Reach-IsLegal vectored_run

-- Region 1 is locked.
abbrev guarded : State
guarded = record plain { pmpcfg = λ i. if i == 1 then 0x9f else 0; pmpaddr = λ i. 0x2000_0000 }

set_csr-KeepsEntry_example : Ensures (KeepsEntry guarded 1) (set_csr hart guarded 0x3b1 5)
set_csr-KeepsEntry_example = set_csr-KeepsEntry hart guarded 1 (omega arith) refl 0x3b1 5

set_csr-StatusLegal_example : Ensures StatusLegal (set_csr hart plain 0x300 0x6000)
unfolding reset_state is_dirty
set_csr-StatusLegal_example =
    set_csr-StatusLegal hart plain (record { fs = refl; sd = λ d. cc }) 0x300 0x6000

mret-trap_to_m_example :
    (s' : State) × (mret hart (trap_to_m hart user call 0x8000_2000) 0x3020_0073 ≡ ok s')
    × (s'.pc ≡ bit_and 0x8000_2000 (pc_alignment_mask user))
    × (s'.prv ≡ prv_u)
    × (test 3 s'.mstatus ≡ 1)
    × (s'.v ≡ false)
unfolding supports legalize_privilege reset_state
mret-trap_to_m_example =
    mret-trap_to_m hart user call 0x8000_2000 0x3020_0073 refl refl refl (omega arith) refl

-- The timer and the software interrupt of the machine are pending, and no interrupt is delegated.
abbrev waiting : State
waiting = record user { mie = 0x88; mip = 0x88 }

take_interrupt_sound_example :
    (k : ℕ) × (0x8000_0000_0000_0003 ≡ bit_or (2 ^ 63) k)
    × (test k 0x88 ≡ 1)
    × (test k (enabled_interrupts waiting 0x88) ≡ 1)
    × (waiting.debug_mode ≡ false)
unfolding take_interrupt prioritized first_enabled enabled_interrupts ctz ctz_from reset_state
take_interrupt_sound_example =
    take_interrupt_sound waiting 0x88 (plain_trap 0x8000_0000_0000_0003) (omega arith) refl

take_interrupt_served_example : take_interrupt waiting 0x88 ≢ aborted
take_interrupt_served_example = take_interrupt_served waiting 0x88 refl refl refl

take_interrupt-masked_example : take_interrupt (record plain { mideleg = 0x222 }) 0x88 ≡ ok tt
unfolding reset_state
take_interrupt-masked_example =
    take_interrupt-masked (record plain { mideleg = 0x222 }) 0x88 refl refl

-- A user's write of `mstatus`.
access_csr-denied_example :
    (t : Trap) × (access_csr hart user 0x3000_1073 0x300 true (λ old. 0) ≡ threw t)
    × IsRefusal 0x3000_1073 t
unfolding reset_state
access_csr-denied_example =
    access_csr-denied hart user 0x3000_1073 0x300 true (λ old. 0) (inl (omega arith))

set_sstatus-SameMachine_example :
    SameMachine (set_sstatus hart user 0xffff_ffff_ffff_ffff).mstatus user.mstatus
set_sstatus-SameMachine_example = set_sstatus-SameMachine hart user 0xffff_ffff_ffff_ffff

-- Region 1 goes from 0x8000_0000 up to 0x8000_4000, and region 0 is off.
abbrev fenced : State
fenced = record plain {
  pmpcfg = λ i. if i == 1 then 0xf else 0;
  pmpaddr = λ i. if i == 0 then 0x2000_0000 else 0x2000_1000;
}

before_region : (k : ℕ) → k < 1 → touches hart fenced 0x8000_0004 8 k ≡ false
unfolding tor_end reset_state
before_region zero h = refl
before_region (suc k) h = absurd (omega arith)

pmp_ok-first_example : pmp_ok hart fenced 0x8000_0004 8 load prv_u ≡ true
unfolding tor_end reset_state
pmp_ok-first_example =
    pmp_ok-first hart fenced 0x8000_0004 8 load prv_u 1 (omega arith) before_region refl
