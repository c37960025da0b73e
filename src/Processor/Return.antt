-- ===== src/Processor/Return.antt =====
-- A trap to the machine and the return from it, `mret`: riscv/processor.cc and riscv/insns/mret.h.
use processorfuzz.Base.{
  ℕ, ◌+◌, ◌*◌, ◌/◌, ◌%◌, ◌^◌, ◌<◌, ◌≡◌, refl, ap, ◌∙◌, arith, bit_and, Bool, true, false, ◌||◌,
  ◌==◌, of_bool, ltb,
}
use processorfuzz.Base.Digits.{test, test-merge_in, bit_and_pair, bit_and_single}
use processorfuzz.Processor.State.{
  State, Config, Trap, ok, supports, letter_h, get_field, set_field, not64, prv_m,
}
use processorfuzz.Processor.Masks.{mstatus_mie, mstatus_mpie, mstatus_mpp, mstatus_mpv, mstatus_gva}
use processorfuzz.Processor.Status.{legalize_privilege, set_mstatus}
use processorfuzz.Processor.Views.{pc_alignment_mask}
use processorfuzz.Processor.Trap.{set_privilege, set_virt, push_m, trap_to_m, handler, rocket_tval}
use processorfuzz.Processor.Privileged.{mret, pop_m, flag}
use processorfuzz.Processor.Legal.Fields.{set_field-out}
use processorfuzz.Processor.Mstatus.{
  requested_mpp, set_mstatus-mie, set_mstatus-mpie, set_mstatus-mpp, set_mstatus-mpv,
}

pub get_field-mie : (m : ℕ) → get_field m mstatus_mie ≡ test 3 m
unfolding get_field
get_field-mie m = rw (bit_and_single 3 m) (omega arith)

get_field-mpie : (m : ℕ) → get_field m mstatus_mpie ≡ test 7 m
unfolding get_field
get_field-mpie m = rw (bit_and_single 7 m) (omega arith)

get_field-mpv : (m : ℕ) → get_field m mstatus_mpv ≡ test 39 m
unfolding get_field
get_field-mpv m = rw (bit_and_single 39 m) (omega arith)

get_field-mpp : (m : ℕ) → get_field m mstatus_mpp ≡ test 11 m + 2 * test 12 m
unfolding get_field
get_field-mpp m = rw (bit_and_pair 11 m) (omega arith)

-- `mstatus` as the trap leaves it: MPIE is the old MIE, and MPP the old level.
module _ (m prv : ℕ) (virt gva : Bool) where
  abbrev m1 : ℕ
  m1 = set_field m mstatus_mpie (get_field m mstatus_mie)

  abbrev m2 : ℕ
  m2 = set_field m1 mstatus_mpp prv

  abbrev m3 : ℕ
  m3 = set_field m2 mstatus_mie 0

  abbrev m4 : ℕ
  m4 = set_field m3 mstatus_mpv (of_bool virt)

  after_mpp :
      (k : ℕ)
      → test k (not64 mstatus_gva) ≡ 1
      → test k mstatus_gva ≡ 0
      → test k (not64 mstatus_mpv) ≡ 1
      → test k mstatus_mpv ≡ 0
      → test k (not64 mstatus_mie) ≡ 1
      → test k mstatus_mie ≡ 0
      → test k (push_m m prv virt gva) ≡ test k m2
  after_mpp k a b c d e f =
      set_field-out k mstatus_gva m4 (of_bool gva) a b
      ∙ set_field-out k mstatus_mpv m3 (of_bool virt) c d
      ∙ set_field-out k mstatus_mie m2 0 e f

  push_m-mpie : test 7 (push_m m prv virt gva) ≡ test 3 m
  unfolding set_field
  push_m-mpie =
      after_mpp 7 refl refl refl refl refl refl
      ∙ set_field-out 7 mstatus_mpp m1 prv refl refl
      ∙ test-merge_in 7 (not64 mstatus_mpie) mstatus_mpie m (get_field m mstatus_mie * 128 % 2 ^ 64)
          refl refl
      ∙ rw (get_field-mie m) (omega arith)

  push_m-mpp : prv < 4 → get_field (push_m m prv virt gva) mstatus_mpp ≡ prv
  unfolding set_field
  push_m-mpp h =
      let low : test 11 m2 ≡ prv % 2 =
        test-merge_in 11 (not64 mstatus_mpp) mstatus_mpp m1 (prv * 2048 % 2 ^ 64) refl refl
        ∙ omega (arith, h) in
      let high : test 12 m2 ≡ prv / 2 % 2 =
        test-merge_in 12 (not64 mstatus_mpp) mstatus_mpp m1 (prv * 2048 % 2 ^ 64) refl refl
        ∙ omega (arith, h) in
      get_field-mpp (push_m m prv virt gva)
      ∙ rw
          (
            after_mpp 11 refl refl refl refl refl refl,
            after_mpp 12 refl refl refl refl refl refl,
            low,
            high,
          )
          (omega (arith, h))

-- `mstatus` as the return leaves it: MIE is MPIE.
pop_m-mie : (m : ℕ) → test 3 (pop_m m) ≡ test 7 m
unfolding set_field
pop_m-mie m =
    let a = set_field m mstatus_mie (get_field m mstatus_mpie) in
    set_field-out 3 mstatus_mpp (set_field a mstatus_mpie 1) 0 refl refl
    ∙ set_field-out 3 mstatus_mpie a 1 refl refl
    ∙ test-merge_in 3 (not64 mstatus_mie) mstatus_mie m (get_field m mstatus_mpie * 8 % 2 ^ 64) refl
        refl
    ∙ rw (get_field-mpie m) (omega arith)

-- Leaving no guest changes nothing.
same_mode : (b : Bool) → (b || true) ≡ true
same_mode true = refl
same_mode false = refl

set_virt-off : (s : State) → s.v ≡ false → set_virt s false ≡ s
unfolding set_virt
set_virt-off s h = rw (h, same_mode (s.prv == prv_m)) refl

-- The registers that a trap to the machine writes before `mstatus`.
abbrev saved : State → Trap → ℕ → State
saved s t epc = record s {
  pc = handler s.mtvec t.cause;
  mepc = epc;
  mcause = t.cause;
  mtval = rocket_tval t.tval;
  mtval2 = t.tval2;
  mtinst = t.tinst;
}

legalize_privilege-saved :
    (s : State) (t : Trap) (epc prv : ℕ)
    → legalize_privilege (saved s t epc) prv ≡ legalize_privilege s prv
unfolding legalize_privilege supports
legalize_privilege-saved s t epc prv = refl

legalize_privilege-m : (s : State) → legalize_privilege s prv_m ≡ prv_m
unfolding legalize_privilege
legalize_privilege-m s = ground arith

abbrev resumed : Config → State → State
resumed c s =
    set_privilege
      (set_mstatus c (record s { pc = bit_and s.mepc (pc_alignment_mask s) }) (pop_m s.mstatus))
      (get_field s.mstatus mstatus_mpp)

-- The return to a host.
mret-resumed :
    (c : Config) (s : State) (bits : ℕ)
    → ltb s.prv prv_m ≡ false
    → flag s.mstatus mstatus_mpv ≡ false
    → s.v ≡ false
    → mret c s bits ≡ ok (resumed c s)
unfolding mret set_privilege set_mstatus
mret-resumed c s bits m f h = rw (m, f) (ap ok (set_virt-off (resumed c s) h))

module _ (c : Config) (s : State) (t : Trap) (epc bits : ℕ)
    (no_guests : supports s letter_h ≡ false) (host : s.v ≡ false) (no_mpv : test 39 s.mstatus ≡ 0)
    (level : s.prv < 4) (legal : legalize_privilege s s.prv ≡ s.prv) where
  abbrev pushed : ℕ
  pushed = push_m s.mstatus s.prv false t.gva

  abbrev trapped : State
  trapped = set_privilege (set_mstatus c (saved s t epc) pushed) prv_m

  trap_to_m-trapped : trap_to_m c s t epc ≡ trapped
  unfolding trap_to_m
  trap_to_m-trapped = rw (set_virt-off s host, host) refl

  requested : requested_mpp (saved s t epc) pushed ≡ s.prv
  requested =
      ap (legalize_privilege (saved s t epc)) (push_m-mpp s.mstatus s.prv false t.gva level)
      ∙ legalize_privilege-saved s t epc s.prv
      ∙ legal

  trapped-mpp : get_field trapped.mstatus mstatus_mpp ≡ s.prv
  unfolding set_privilege
  trapped-mpp =
      let (low, high) =
        set_mstatus-mpp c (saved s t epc) pushed (omega (arith, requested, level)) in
      get_field-mpp (set_mstatus c (saved s t epc) pushed).mstatus
      ∙ omega (arith, low, high, requested, level)

  trapped-mpie : test 7 trapped.mstatus ≡ test 3 s.mstatus
  unfolding set_privilege
  trapped-mpie = set_mstatus-mpie c (saved s t epc) pushed ∙ push_m-mpie s.mstatus s.prv false t.gva

  trapped-mpv : flag trapped.mstatus mstatus_mpv ≡ false
  unfolding set_privilege supports
  trapped-mpv =
      let none = set_mstatus-mpv c (saved s t epc) pushed no_guests ∙ no_mpv in
      rw (get_field-mpv (set_mstatus c (saved s t epc) pushed).mstatus, none) refl

  trapped-host : trapped.v ≡ false
  unfolding set_privilege set_mstatus
  trapped-host = host

  trapped-prv : trapped.prv ≡ prv_m
  unfolding set_privilege
  trapped-prv = legalize_privilege-m (set_mstatus c (saved s t epc) pushed)

  mret-trapped : mret c trapped bits ≡ ok (resumed c trapped)
  mret-trapped = mret-resumed c trapped bits (rw trapped-prv refl) trapped-mpv trapped-host

  resumed-pc : (resumed c trapped).pc ≡ bit_and epc (pc_alignment_mask s)
  unfolding set_privilege set_mstatus pc_alignment_mask supports
  resumed-pc = refl

  resumed-prv : (resumed c trapped).prv ≡ s.prv
  unfolding set_privilege set_mstatus legalize_privilege supports
  resumed-prv = ap (legalize_privilege s) trapped-mpp ∙ legal

  resumed-mie : test 3 (resumed c trapped).mstatus ≡ test 3 s.mstatus
  unfolding set_privilege
  resumed-mie =
      set_mstatus-mie c _ (pop_m trapped.mstatus) ∙ pop_m-mie trapped.mstatus ∙ trapped-mpie

  resumed-v : (resumed c trapped).v ≡ false
  unfolding set_privilege set_mstatus
  resumed-v = host

  -- A trap to the machine and `mret` come back: on a hart without guests, from any level that it has,
  -- the return succeeds, at the aligned address of the trap, on the same level, with the same MIE.
  pub mret-trap_to_m :
      (s' : State) × (mret c (trap_to_m c s t epc) bits ≡ ok s')
      × (s'.pc ≡ bit_and epc (pc_alignment_mask s))
      × (s'.prv ≡ s.prv)
      × (test 3 s'.mstatus ≡ test 3 s.mstatus)
      × (s'.v ≡ false)
  mret-trap_to_m = (
    resumed c trapped,
    ap (λ x. mret c x bits) trap_to_m-trapped ∙ mret-trapped,
    resumed-pc,
    resumed-prv,
    resumed-mie,
    resumed-v,
  )
