-- ===== src/Processor/Trap.antt =====
-- Traps and interrupts: `take_trap`, `take_interrupt`, `enter_debug_mode`, `set_privilege` and
-- `set_virt` of riscv/processor.cc, without the log. `set_privilege` also flushes the TLB, which is
-- not modelled.
use processorfuzz.Base.{ℕ, zero, suc, ◌+◌, ◌-◌, ◌*◌, ◌/◌, ◌%◌, ◌^◌, bit_and, bit_or}
use processorfuzz.Base.{Bool, true, false, not, ◌&&◌, ◌||◌, ◌==◌, ltb, leb, of_bool}
use processorfuzz.Base.{if◌then◌else◌, List, [], ◌∷◌, Option, none, some}
use processorfuzz.Processor.State.{
  State, Config, Trap, Outcome, ok, threw, aborted, supports, get_field, set_field, not64, prv_u,
  prv_s, prv_m, letter_f, letter_v,
}
use processorfuzz.Processor.Masks.{
  or_of, on, mstatus_sie, mstatus_spie, mstatus_spp, mstatus_mie, mstatus_mpie, mstatus_mpp,
  mstatus_mpv, mstatus_gva, mstatus_fs, mstatus_vs, mstatus_xs, mstatus64_sd, sstatus_vs_mask,
  hstatus_spvp, hstatus_spv, hstatus_gva, mip_vs_mask, mip_meip, mip_msip, mip_mtip, mip_seip,
  mip_ssip, mip_stip, mip_vseip, mip_vssip, mip_vstip, irq_m_ext, cause_breakpoint,
}
use processorfuzz.Processor.Status.{legalize_privilege, set_mstatus}
use processorfuzz.Processor.Hypervisor.{set_hstatus}

unfoldable pub set_privilege : State → ℕ → State
set_privilege s prv = record s { prv = legalize_privilege s prv }

-- The guest keeps a dirty state of the host's that it shares.
abbrev pub sync_dirty : (field mstatus vsstatus : ℕ) → ℕ
sync_dirty field mstatus vsstatus =
    if bit_and mstatus field == field then bit_or vsstatus (bit_or field mstatus64_sd) else vsstatus

-- The fields of `mstatus` and `vsstatus` that `set_virt` exchanges.
abbrev pub virt_mask : State → ℕ
virt_mask s = or_of (
    sstatus_vs_mask
    ∷ on (supports s letter_f) mstatus_fs
    ∷ on (supports s letter_v) mstatus_vs
    ∷ mstatus64_sd
    ∷ [])

unfoldable pub set_virt : State → Bool → State
set_virt s virt =
    if s.prv == prv_m || of_bool s.v == of_bool virt
    then s
    else let synced =
        if s.v && not virt
        then sync_dirty mstatus_xs s.mstatus
            (sync_dirty mstatus_vs s.mstatus (sync_dirty mstatus_fs s.mstatus s.vsstatus))
        else s.vsstatus in
      let mask = virt_mask s in
      record s {
        mstatus = bit_or (bit_and s.mstatus (not64 mask)) (bit_and synced mask);
        vsstatus = bit_and s.mstatus mask;
        v = virt;
      }

abbrev pub debug_rom_entry : ℕ
debug_rom_entry = 0x800

abbrev pub debug_rom_tvec : ℕ
debug_rom_tvec = 0x808

abbrev pub dcsr_cause_swbp : ℕ
dcsr_cause_swbp = 1

unfoldable pub enter_debug_mode : State → ℕ → State
enter_debug_mode s cause =
    let s' =
      set_privilege
        (record s { debug_mode = true; dcsr = record s.dcsr { cause = cause; prv = s.prv } })
        prv_m in
    record s' { dpc = s.pc; pc = debug_rom_entry }

abbrev pub is_interrupt : ℕ → Bool
is_interrupt cause = not (bit_and cause (2 ^ 63) == 0)

-- The number of the interrupt or exception.
abbrev pub cause_number : ℕ → ℕ
cause_number cause = if is_interrupt cause then bit_and cause (not64 (2 ^ 63)) else cause

abbrev pub delegates : (deleg number : ℕ) → Bool
delegates deleg number = ltb number 64 && deleg / 2 ^ number % 2 == 1

-- Where the handler starts, by a `tvec` register.
abbrev pub handler : (tvec cause : ℕ) → ℕ
handler tvec cause =
    let vector =
      if not (bit_and tvec 1 == 0) && is_interrupt cause then 4 * cause_number cause else 0 in
    (bit_and tvec (not64 1) + vector) % 2 ^ 64

-- `mstatus` on entry to a supervisor's handler.
abbrev pub push_s : (mstatus prv : ℕ) → ℕ
push_s m prv =
    let m1 = set_field m mstatus_spie (get_field m mstatus_sie) in
    set_field (set_field m1 mstatus_spp prv) mstatus_sie 0

unfoldable pub trap_to_vs : Config → State → Trap → ℕ → State
trap_to_vs c s t epc =
    let s1 = record s {
      pc = handler s.vstvec t.cause;
      vscause = if is_interrupt t.cause then t.cause - 1 else t.cause;
      vsepc = epc;
      vstval = t.tval;
    } in
    set_privilege (set_mstatus c s1 (push_s s1.mstatus s1.prv)) prv_s

unfoldable pub trap_to_hs : Config → State → Trap → ℕ → State
trap_to_hs c s t epc =
    let s0 = set_virt s false in
    let s1 = record s0 {
      pc = handler s0.stvec t.cause;
      scause = t.cause;
      sepc = epc;
      stval = t.tval;
      htval = t.tval2;
      htinst = t.tinst;
    } in
    let s2 = set_mstatus c s1 (push_s s1.mstatus s1.prv) in
    let h1 = set_field s2.hstatus hstatus_spvp s2.prv in
    let h2 = set_field h1 hstatus_spv (of_bool s.v) in
    set_privilege (set_hstatus s2 (set_field h2 hstatus_gva (of_bool t.gva))) prv_s

-- The trap value as Rocket keeps it: forty bits, sign-extended from bit 39, which tells whether the
-- bits above 38 agree with that bit.
unfoldable pub rocket_tval : ℕ → ℕ
rocket_tval tval =
    let upper = bit_and (tval / 2 ^ 39) 0x1ff_ffff in
    let negative = bit_and (tval / 2 ^ 38) 1 == 1 in
    let tval =
      if negative && upper == 0x1ff_ffff
      then bit_or tval (2 ^ 39)
      else if not negative && not (upper == 0)
      then bit_or tval (2 ^ 39)
      else bit_and tval 0xffff_ff7f_ffff_ffff in
    let upper_mask = if bit_and (tval / 2 ^ 39) 1 == 1 then 0xff_ffff else 0 in
    bit_or (upper_mask * 2 ^ 40) (bit_and tval 0xff_ffff_ffff)

-- `mstatus` on entry to the machine's handler.
abbrev pub push_m : (mstatus prv : ℕ) (virt gva : Bool) → ℕ
push_m m prv virt gva =
    let m1 = set_field m mstatus_mpie (get_field m mstatus_mie) in
    let m2 = set_field (set_field m1 mstatus_mpp prv) mstatus_mie 0 in
    set_field (set_field m2 mstatus_mpv (of_bool virt)) mstatus_gva (of_bool gva)

unfoldable pub trap_to_m : Config → State → Trap → ℕ → State
trap_to_m c s t epc =
    let s0 = set_virt s false in
    let s1 = record s0 {
      pc = handler s0.mtvec t.cause;
      mepc = epc;
      mcause = t.cause;
      mtval = rocket_tval t.tval;
      mtval2 = t.tval2;
      mtinst = t.tinst;
    } in
    set_privilege (set_mstatus c s1 (push_m s1.mstatus s1.prv s.v t.gva)) prv_m

-- A breakpoint that `dcsr` sends to debug mode.
abbrev pub breaks_to_debug : State → Trap → Bool
breaks_to_debug s t =
    t.cause == cause_breakpoint
    && ((s.prv == prv_m && s.dcsr.ebreakm)
        || (s.prv == prv_s && s.dcsr.ebreaks)
        || (s.prv == prv_u && s.dcsr.ebreaku))

unfoldable pub take_trap : Config → State → Trap → ℕ → State
take_trap c s t epc =
    let number = cause_number t.cause in
    let deleg = if is_interrupt t.cause then s.mideleg else s.medeleg in
    let guest_deleg = if is_interrupt t.cause then s.hideleg else s.hedeleg in
    let below_m = leb s.prv prv_s in
    if s.debug_mode
    then record s { pc = if t.cause == cause_breakpoint then debug_rom_entry else debug_rom_tvec }
    else if breaks_to_debug s t
    then enter_debug_mode s dcsr_cause_swbp
    else if below_m && delegates (on s.v (bit_and deleg guest_deleg)) number
    then trap_to_vs c s t epc
    else if below_m && delegates deleg number
    then trap_to_hs c s t epc
    else trap_to_m c s t epc

-- `ctz` of riscv/processor.cc on the lowest `bits` bits.
unfoldable pub ctz_from : (bits val : ℕ) → ℕ
ctz_from zero val = 0
ctz_from (suc bits) val =
    let rest = suc (ctz_from bits (val / 2)) in if val % 2 == 1 then 0 else rest

unfoldable pub ctz : ℕ → ℕ
unfolding ctz_from
ctz val = if val == 0 then 0 else ctz_from 64 val

-- The pending interrupts of each level that the hart takes in its mode.
abbrev pub m_enabled : State → Bool
m_enabled s = ltb s.prv prv_m || (s.prv == prv_m && not (get_field s.mstatus mstatus_mie == 0))

-- `status` has the SIE that counts for the level.
abbrev pub s_enabled : State → (status : ℕ) → Bool
s_enabled s status = ltb s.prv prv_s || (s.prv == prv_s && not (get_field status mstatus_sie == 0))

abbrev pub m_interrupts : State → ℕ → ℕ
m_interrupts s pending = on (m_enabled s) (bit_and pending (not64 s.mideleg))

abbrev pub hs_interrupts : State → ℕ → ℕ
hs_interrupts s pending =
    on (s_enabled s (if s.v then s.vsstatus else s.mstatus))
      (bit_and pending (bit_and s.mideleg (not64 mip_vs_mask)))

abbrev pub vs_interrupts : State → ℕ → ℕ
vs_interrupts s pending = on (s_enabled s s.mstatus) (bit_and pending (bit_and s.mideleg s.hideleg))

-- Those of the highest level that has any.
unfoldable pub enabled_interrupts : State → ℕ → ℕ
enabled_interrupts s pending =
    if not (m_interrupts s pending == 0)
    then m_interrupts s pending
    else if s.v && hs_interrupts s pending == 0
    then vs_interrupts s pending
    else hs_interrupts s pending

-- The first of `order` that is enabled.
unfoldable pub first_enabled : List ℕ → ℕ → Option ℕ
first_enabled [] enabled = none
first_enabled (m ∷ ms) enabled = if bit_and enabled m == 0 then first_enabled ms enabled else some m

-- MEI, MSI, MTI, SEI, SSI, STI, and those of the guest.
abbrev pub standard_order : List ℕ
standard_order =
    mip_meip ∷ mip_msip ∷ mip_mtip ∷ mip_seip ∷ mip_ssip ∷ mip_stip ∷ mip_vseip ∷ mip_vssip
    ∷ mip_vstip ∷ []

-- The bits to take: any at IRQ_M_EXT or above, or the first of the standard ones; `none` is the
-- call of `abort`.
unfoldable pub prioritized : ℕ → Option ℕ
unfolding first_enabled
prioritized enabled =
    if not (enabled / 2 ^ irq_m_ext == 0)
    then some (enabled / 2 ^ irq_m_ext * 2 ^ irq_m_ext)
    else first_enabled standard_order enabled

-- The exception of the interrupt, by the bits of `prioritized`.
abbrev pub interrupt_of : Option ℕ → Outcome (Unit {0})
interrupt_of none = aborted
interrupt_of (some bits) =
    threw
      (record { cause = bit_or (2 ^ 63) (ctz bits); tval = 0; tval2 = 0; tinst = 0; gva = false })

unfoldable pub take_interrupt : State → ℕ → Outcome (Unit {0})
take_interrupt s pending =
    let enabled = enabled_interrupts s pending in
    if pending == 0 || s.debug_mode || enabled == 0
    then ok tt
    else interrupt_of (prioritized enabled)
