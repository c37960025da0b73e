-- ===== src/Processor/Reset.antt =====
-- `reset` of the state and of the processor, riscv/processor.cc, without the vector unit, a
-- coprocessor's own state and the simulator's.
use processorfuzz.Base.{ℕ, ◌-◌, ◌^◌, Bool, false, if◌then◌else◌, ltb, [], ◌∷◌}
use processorfuzz.Processor.State.{State, Config, Dcsr, Mcontrol, supports, letter_h, prv_m}
use processorfuzz.Processor.Masks.{mip_hs_mask, or_of, pmp_r, pmp_w, pmp_x, pmp_napot}
use processorfuzz.Processor.Status.{set_mstatus}
use processorfuzz.Processor.Debug.{set_pmpaddr, set_pmpcfg}

abbrev pub default_rstvec : ℕ
default_rstvec = 0x1_0000

abbrev pub no_trigger : Mcontrol
no_trigger = record {
  type = 2;
  dmode = false;
  maskmax = 0;
  select = false;
  timing = false;
  action = 0;
  chain = false;
  match = 0;
  m = false;
  h = false;
  s = false;
  u = false;
  execute = false;
  store = false;
  load = false;
}

abbrev pub no_dcsr : Dcsr
no_dcsr = record {
  prv = 0;
  step = false;
  ebreakm = false;
  ebreakh = false;
  ebreaks = false;
  ebreaku = false;
  halt = false;
  cause = 0;
}

unfoldable pub reset_state : (max_isa : ℕ) → State
reset_state max_isa = record {
  pc = default_rstvec;
  prv = prv_m;
  v = false;
  misa = max_isa;
  mstatus = 0;
  mepc = 0;
  mtval = 0;
  mscratch = 0;
  mtvec = 0;
  mcause = 0;
  minstret = 0;
  mie = 0;
  mip = 0;
  medeleg = 0;
  mideleg = 0;
  mcounteren = 0;
  scounteren = 0;
  sepc = 0;
  stval = 0;
  sscratch = 0;
  stvec = 0;
  satp = 0;
  scause = 0;
  mtval2 = 0;
  mtinst = 0;
  hstatus = 0;
  hideleg = 0;
  hedeleg = 0;
  hcounteren = 0;
  htval = 0;
  htinst = 0;
  hgatp = 0;
  vsstatus = 0;
  vstvec = 0;
  vsscratch = 0;
  vsepc = 0;
  vscause = 0;
  vstval = 0;
  vsatp = 0;
  dpc = 0;
  dscratch0 = 0;
  dscratch1 = 0;
  dcsr = no_dcsr;
  tselect = 0;
  mcontrol = λ i. no_trigger;
  tdata2 = λ i. 0;
  debug_mode = false;
  pmpcfg = λ i. 0;
  pmpaddr = λ i. 0;
  fflags = 0;
  frm = 0;
  vxsat = 0;
  vxrm = 0;
  vstart = 0;
  vl = 0;
  vtype = 0;
}

-- The registers before the first PMP region is opened.
unfoldable pub reset_registers : Config → (halt_on_reset : Bool) → State
unfolding reset_state
reset_registers c halt_on_reset =
    let s0 = reset_state c.max_isa in
    let s1 = record s0 {
      mideleg = if supports s0 letter_h then mip_hs_mask else 0;
      dcsr = record s0.dcsr { halt = halt_on_reset };
    } in
    set_mstatus c s1 s1.mstatus

-- With PMP, the first region opens all of memory to every level.
unfoldable pub reset : Config → (halt_on_reset : Bool) → State
reset c halt_on_reset =
    let s = reset_registers c halt_on_reset in
    if ltb 0 c.n_pmp
    then set_pmpcfg c (set_pmpaddr c s 0 (2 ^ 64 - 1)) 0
        (or_of (pmp_r ∷ pmp_w ∷ pmp_x ∷ pmp_napot ∷ []))
    else s
