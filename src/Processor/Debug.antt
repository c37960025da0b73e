-- ===== src/Processor/Debug.antt =====
-- Writes of the trigger and debug registers, and of physical memory protection: the cases of
-- `set_csr` of riscv/processor.cc. The copies of the triggers in the memory unit that
-- `trigger_updated` refreshes are left out.
use processorfuzz.Base.{ℕ, zero, suc, ◌+◌, ◌-◌, ◌*◌, ◌/◌, ◌%◌, ◌^◌, bit_and, bit_or, update}
use processorfuzz.Base.{Bool, not, ◌&&◌, ◌==◌, ltb, if◌then◌else◌, [], ◌∷◌}
use processorfuzz.Processor.State.{State, Config, Mcontrol, get_field, not64, num_triggers, max_pmp}
use processorfuzz.Processor.Masks.{
  or_of, on, pmp_r, pmp_w, pmp_x, pmp_a, pmp_l, pmp_shift, pmp_tor, pmp_na4, pmp_napot,
  max_paddr_bits,
}

-- A field, as a C `bool`.
abbrev flag : ℕ → ℕ → Bool
flag val mask = not (get_field val mask == 0)

unfoldable pub set_tselect : State → ℕ → State
set_tselect s val = record s { tselect = if ltb val num_triggers then val else s.tselect }

unfoldable pub written_mcontrol : Mcontrol → ℕ → Mcontrol
unfolding get_field
written_mcontrol mc val = record mc {
  dmode = flag val (2 ^ 59);
  select = flag val (2 ^ 19);
  timing = flag val (2 ^ 18) && not (flag val (2 ^ 2));
  action = get_field val (0x3f * 2 ^ 12);
  chain = flag val (2 ^ 11);
  match = get_field val (0xf * 2 ^ 7);
  m = flag val (2 ^ 6);
  h = flag val (2 ^ 5);
  s = flag val (2 ^ 4);
  u = flag val (2 ^ 3);
  execute = flag val (2 ^ 2);
  store = flag val (2 ^ 1);
  load = flag val (2 ^ 0);
}

abbrev is_protected : State → Bool
is_protected s = (s.mcontrol s.tselect).dmode && not s.debug_mode

unfoldable pub set_tdata1 : State → ℕ → State
set_tdata1 s val = record s {
  mcontrol =
      if is_protected s
      then s.mcontrol
      else update s.mcontrol s.tselect (written_mcontrol (s.mcontrol s.tselect) val);
}

unfoldable pub set_tdata2 : State → ℕ → State
set_tdata2 s val = record s {
  tdata2 =
      if not (is_protected s) && ltb s.tselect num_triggers
      then update s.tdata2 s.tselect val
      else s.tdata2;
}

unfoldable pub set_dcsr : State → ℕ → State
unfolding get_field
set_dcsr s val = record s {
  dcsr = record s.dcsr {
    prv = get_field val 0x3;
    step = flag val (2 ^ 2);
    ebreakm = flag val (2 ^ 15);
    ebreakh = flag val (2 ^ 14);
    ebreaks = flag val (2 ^ 13);
    ebreaku = flag val (2 ^ 12);
    halt = flag val (2 ^ 3);
  };
}

unfoldable pub set_dpc : State → ℕ → State
set_dpc s val = record s { dpc = bit_and val (not64 1) }

unfoldable pub set_dscratch0 : State → ℕ → State
set_dscratch0 s val = record s { dscratch0 = val }

unfoldable pub set_dscratch1 : State → ℕ → State
set_dscratch1 s val = record s { dscratch1 = val }

abbrev pub is_locked : ℕ → Bool
is_locked cfg = not (bit_and cfg pmp_l == 0)

-- The write of CSR_PMPADDR0 + `i`.
unfoldable pub set_pmpaddr : Config → State → ℕ → ℕ → State
set_pmpaddr c s i val =
    let locked = is_locked (s.pmpcfg i) in
    let next_locked = ltb (i + 1) max_pmp && is_locked (s.pmpcfg (i + 1)) in
    let next_tor = ltb (i + 1) max_pmp && bit_and (s.pmpcfg (i + 1)) pmp_a == pmp_tor in
    record s {
      pmpaddr =
          if ltb i c.n_pmp && not locked && not (next_locked && next_tor)
          then update s.pmpaddr i (bit_and val (2 ^ (max_paddr_bits - pmp_shift) - 1))
          else s.pmpaddr;
    }

-- A byte of a PMP configuration register as it is stored: W needs R, and the four-byte mode needs
-- the finest granularity.
unfoldable pub legal_byte : (coarse : Bool) → ℕ → ℕ
legal_byte coarse byte =
    let cfg = bit_and byte (or_of (pmp_r ∷ pmp_w ∷ pmp_x ∷ pmp_a ∷ pmp_l ∷ [])) in
    let cfg = bit_and cfg (bit_or (not64 pmp_w) (on (not (bit_and cfg pmp_r == 0)) pmp_w)) in
    if coarse && bit_and cfg pmp_a == pmp_na4 then bit_or cfg pmp_napot else cfg

abbrev pub legal_pmpcfg : Config → ℕ → ℕ
legal_pmpcfg c byte = legal_byte (not (c.lg_pmp_granularity == pmp_shift)) byte

-- The loop over the entries from `i` on, of which `left` are left; `val` begins with entry `i`.
unfoldable pub set_pmpcfgs : Config → (left i val : ℕ) → (ℕ → ℕ) → ℕ → ℕ
set_pmpcfgs c zero i val cfgs = cfgs
set_pmpcfgs c (suc left) i val cfgs = set_pmpcfgs c left (i + 1) (val / 2 ^ 8) (
    if ltb i c.n_pmp && not (is_locked (cfgs i))
    then update cfgs i (legal_pmpcfg c (val % 2 ^ 8))
    else cfgs)

-- The write of CSR_PMPCFG0 + `i`.
unfoldable pub set_pmpcfg : Config → State → ℕ → ℕ → State
set_pmpcfg c s i val = record s {
  pmpcfg = if c.n_pmp == 0 then s.pmpcfg else set_pmpcfgs c 8 (i * 4) val s.pmpcfg;
}
