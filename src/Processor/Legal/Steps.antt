-- ===== src/Processor/Legal/Steps.antt =====
-- Traps, returns and their parts keep the registers legal: riscv/processor.cc, riscv/insns/mret.h,
-- sret.h and dret.h.
use processorfuzz.Base.{
  ℕ, ◌≡◌, refl, ◌∙◌, bit_and, Bool, true, false, of_bool, arith, not, ltb, ◌==◌, ◌&&◌, ◌||◌,
  if◌then◌else◌,
}
use processorfuzz.Base.Digits.{test, test-bit_and}
use processorfuzz.Processor.State.{
  State, Config, Trap, Outcome, ok, threw, Ensures, not64, prv_m, prv_s, supports, letter_s,
  get_field,
}
use processorfuzz.Processor.Status.{set_mstatus}
use processorfuzz.Processor.Hypervisor.{set_hstatus}
use processorfuzz.Processor.Masks.{
  cause_breakpoint, mstatus_mpp, mstatus_mpv, mstatus_spp, mstatus_tsr, hstatus_vtsr, hstatus_spv,
}
use processorfuzz.Processor.Registers.{illegal_instruction}
use processorfuzz.Processor.Trap.{
  breaks_to_debug, debug_rom_entry, debug_rom_tvec, dcsr_cause_swbp, set_privilege, set_virt,
  handler, trap_to_vs, trap_to_hs, trap_to_m, take_trap, enter_debug_mode,
}
use processorfuzz.Processor.Privileged.{flag, pop_m, pop_s, mret, sret, dret}
use processorfuzz.Processor.Views.{pc_alignment_mask, virtual_instruction}
use processorfuzz.Processor.Legal.{IsLegal}
use processorfuzz.Processor.Legal.Reset.{legal-if}

-- A masked address is as even as the address.
pub bit_and-even : (a mask : ℕ) → test 0 a ≡ 0 → test 0 (bit_and a mask) ≡ 0
bit_and-even a mask h = test-bit_and 0 a mask ∙ rw h (omega arith)

handler-even : (tvec cause : ℕ) → test 0 (handler tvec cause) ≡ 0
handler-even tvec cause =
    let base : test 0 (bit_and tvec (not64 1)) ≡ 0 = test-bit_and 0 tvec (not64 1) ∙ omega arith in
    ground (arith, base)

set_privilege-IsLegal : (s : State) (prv : ℕ) → IsLegal s → IsLegal (set_privilege s prv)
unfolding set_privilege
set_privilege-IsLegal s prv v = record {
  even_pc = v.even_pc;
  traps = v.traps;
  delegation = v.delegation;
  pmp = v.pmp;
  ranges = v.ranges;
}

set_mstatus-IsLegal : (c : Config) (s : State) (val : ℕ) → IsLegal s → IsLegal (set_mstatus c s val)
unfolding set_mstatus
set_mstatus-IsLegal c s val v = record {
  even_pc = v.even_pc;
  traps = v.traps;
  delegation = v.delegation;
  pmp = v.pmp;
  ranges = v.ranges;
}

set_virt-IsLegal : (s : State) (virt : Bool) → IsLegal s → IsLegal (set_virt s virt)
unfolding set_virt
set_virt-IsLegal s virt v = legal-if (s.prv == prv_m || of_bool s.v == of_bool virt) s _ v (record {
  even_pc = v.even_pc;
  traps = v.traps;
  delegation = v.delegation;
  pmp = v.pmp;
  ranges = v.ranges;
})

module _ (c : Config) (s : State) (t : Trap) (epc : ℕ) (v : IsLegal s) (e : test 0 epc ≡ 0) where
  trap_to_vs-IsLegal : IsLegal (trap_to_vs c s t epc)
  unfolding trap_to_vs
  trap_to_vs-IsLegal = set_privilege-IsLegal _ prv_s (
      set_mstatus-IsLegal c _ _ (record {
        even_pc = handler-even s.vstvec t.cause;
        traps = record {
          machine_vector = v.traps.machine_vector;
          supervisor_vector = v.traps.supervisor_vector;
          guest_vector = v.traps.guest_vector;
          machine_pc = v.traps.machine_pc;
          supervisor_pc = v.traps.supervisor_pc;
          guest_pc = e;
          debug_pc = v.traps.debug_pc;
        };
        delegation = v.delegation;
        pmp = v.pmp;
        ranges = v.ranges;
      }))

  trap_to_m-IsLegal : IsLegal (trap_to_m c s t epc)
  unfolding trap_to_m
  trap_to_m-IsLegal =
      let w = set_virt-IsLegal s false v in
      set_privilege-IsLegal _ prv_m (
        set_mstatus-IsLegal c _ _ (record {
          even_pc = handler-even (set_virt s false).mtvec t.cause;
          traps = record {
            machine_vector = w.traps.machine_vector;
            supervisor_vector = w.traps.supervisor_vector;
            guest_vector = w.traps.guest_vector;
            machine_pc = e;
            supervisor_pc = w.traps.supervisor_pc;
            guest_pc = w.traps.guest_pc;
            debug_pc = w.traps.debug_pc;
          };
          delegation = w.delegation;
          pmp = w.pmp;
          ranges = w.ranges;
        }))

  saved_for_hs :
      (s0 : State)
      → IsLegal s0
      → IsLegal (record s0 {
        pc = handler s0.stvec t.cause;
        scause = t.cause;
        sepc = epc;
        stval = t.tval;
        htval = t.tval2;
        htinst = t.tinst;
      })
  saved_for_hs s0 w = record {
    even_pc = handler-even s0.stvec t.cause;
    traps = record {
      machine_vector = w.traps.machine_vector;
      supervisor_vector = w.traps.supervisor_vector;
      guest_vector = w.traps.guest_vector;
      machine_pc = w.traps.machine_pc;
      supervisor_pc = e;
      guest_pc = w.traps.guest_pc;
      debug_pc = w.traps.debug_pc;
    };
    delegation = w.delegation;
    pmp = w.pmp;
    ranges = w.ranges;
  }

set_hstatus-IsLegal : (s : State) (val : ℕ) → IsLegal s → IsLegal (set_hstatus s val)
unfolding set_hstatus
set_hstatus-IsLegal s val v = record {
  even_pc = v.even_pc;
  traps = v.traps;
  delegation = v.delegation;
  pmp = v.pmp;
  ranges = v.ranges;
}

trap_to_hs-IsLegal :
    (c : Config) (s : State) (t : Trap) (epc : ℕ)
    → IsLegal s
    → test 0 epc ≡ 0
    → IsLegal (trap_to_hs c s t epc)
unfolding trap_to_hs
trap_to_hs-IsLegal c s t epc v e = set_privilege-IsLegal _ prv_s (
    set_hstatus-IsLegal _ _ (
      set_mstatus-IsLegal c _ _
        (saved_for_hs c s t epc v e (set_virt s false) (set_virt-IsLegal s false v))))

pub enter_debug_mode-IsLegal :
    (s : State) (cause : ℕ) → IsLegal s → IsLegal (enter_debug_mode s cause)
unfolding enter_debug_mode set_privilege
enter_debug_mode-IsLegal s cause v = record {
  even_pc = refl;
  traps = record {
    machine_vector = v.traps.machine_vector;
    supervisor_vector = v.traps.supervisor_vector;
    guest_vector = v.traps.guest_vector;
    machine_pc = v.traps.machine_pc;
    supervisor_pc = v.traps.supervisor_pc;
    guest_pc = v.traps.guest_pc;
    debug_pc = v.even_pc;
  };
  delegation = v.delegation;
  pmp = v.pmp;
  ranges = v.ranges;
}

pub at_pc : (s : State) (pc : ℕ) → test 0 pc ≡ 0 → IsLegal s → IsLegal (record s { pc = pc })
at_pc s pc e v = record {
  even_pc = e;
  traps = v.traps;
  delegation = v.delegation;
  pmp = v.pmp;
  ranges = v.ranges;
}

debug_rom-even : (b : Bool) → test 0 (if b then debug_rom_entry else debug_rom_tvec) ≡ 0
debug_rom-even true = refl
debug_rom-even false = refl

pub take_trap-IsLegal :
    (c : Config) (s : State) (t : Trap) (epc : ℕ)
    → IsLegal s
    → test 0 epc ≡ 0
    → IsLegal (take_trap c s t epc)
unfolding take_trap
take_trap-IsLegal c s t epc v e =
    legal-if s.debug_mode _ _ (at_pc s _ (debug_rom-even (t.cause == cause_breakpoint)) v) (
      legal-if (breaks_to_debug s t) _ _ (enter_debug_mode-IsLegal s dcsr_cause_swbp v) (
        legal-if _ _ _ (trap_to_vs-IsLegal c s t epc v e)
          (legal-if _ _ _ (trap_to_hs-IsLegal c s t epc v e) (trap_to_m-IsLegal c s t epc v e))))

-- A trap on a condition.
pub Ensures-unless :
    {A : Type 0} (P : A → Type 0) (b : Bool) (t : Trap) (o : Outcome A)
    → Ensures P o
    → Ensures P (if b then threw t else o)
Ensures-unless P true t o p = tt
Ensures-unless P false t o p = p

module _ (c : Config) (s : State) (bits : ℕ) (v : IsLegal s) where
  resumed :
      (pc mstatus prv : ℕ)
      → test 0 pc ≡ 0
      → IsLegal (
          set_privilege
            (set_mstatus c (record s { pc = bit_and pc (pc_alignment_mask s) }) mstatus)
            prv)
  resumed pc mstatus prv e =
      set_privilege-IsLegal _ prv
        (set_mstatus-IsLegal c _ mstatus (at_pc s _ (bit_and-even pc (pc_alignment_mask s) e) v))

  pub mret-IsLegal : Ensures IsLegal (mret c s bits)
  unfolding mret
  mret-IsLegal =
      let w =
        resumed s.mepc (pop_m s.mstatus) (get_field s.mstatus mstatus_mpp) v.traps.machine_pc in
      Ensures-unless IsLegal (ltb s.prv prv_m) (illegal_instruction bits) (ok _)
        (set_virt-IsLegal _ (flag s.mstatus mstatus_mpv) w)

  either-even : (b : Bool) → test 0 (if b then s.vsepc else s.sepc) ≡ 0
  either-even true = v.traps.guest_pc
  either-even false = v.traps.supervisor_pc

  pub sret-IsLegal : Ensures IsLegal (sret c s bits)
  unfolding sret set_privilege set_mstatus
  sret-IsLegal =
      let next_pc = if s.v then s.vsepc else s.sepc in
      let w =
        resumed next_pc (pop_s s.mstatus) (get_field s.mstatus mstatus_spp) (either-even s.v) in
      Ensures-unless IsLegal
        (not (supports s letter_s)
          || ltb s.prv (if flag s.mstatus mstatus_tsr then prv_m else prv_s))
        (illegal_instruction bits) _
        (Ensures-unless IsLegal (s.v && flag s.hstatus hstatus_vtsr) (virtual_instruction bits)
          (ok _) (legal-if s.v _ _ w (set_virt-IsLegal _ (flag s.hstatus hstatus_spv) w)))

  debug_mode_left :
      (s1 : State) (prv : ℕ)
      → IsLegal s1
      → IsLegal (record (set_privilege s1 prv) { debug_mode = false })
  unfolding set_privilege
  debug_mode_left s1 prv w = record {
    even_pc = w.even_pc;
    traps = w.traps;
    delegation = w.delegation;
    pmp = w.pmp;
    ranges = w.ranges;
  }

  pub dret-IsLegal : Ensures IsLegal (dret s bits)
  unfolding dret
  dret-IsLegal = Ensures-unless IsLegal (not s.debug_mode) (illegal_instruction bits) (ok _) (
      debug_mode_left _ s.dcsr.prv
        (at_pc s _ (bit_and-even s.dpc (pc_alignment_mask s) v.traps.debug_pc) v))
