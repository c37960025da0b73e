-- ===== src/Processor/Supervisor.antt =====
-- What a write of `sstatus` cannot reach: `case CSR_SSTATUS` of riscv/processor.cc.
use processorfuzz.Base.{ℕ, ◌≡◌, refl, ◌∙◌, ◌==◌, ==_iff, Bool, true, arith}
use processorfuzz.Base.Digits.{test, test-merge_out}
use processorfuzz.Processor.State.{
  State, Config, supports, letter_s, letter_f, letter_h, letter_v, not64,
}
use processorfuzz.Processor.Masks.{mstatus_fs}
use processorfuzz.Processor.Legal.Fields.{every, every_sound}
use processorfuzz.Processor.Status.{sstatus_mask, set_sstatus, mstatus_mask}
use processorfuzz.Processor.Mstatus.{IsPlain, mask-bit, set_mstatus-in}

record IsMachineBit (k : ℕ) : Type 0 where
  pub plain : IsPlain k
  pub not_fs : test k mstatus_fs ≡ 0
  pub outside : (v : Bool) → test k (sstatus_mask v) ≡ 0
  pub not_inside : (v : Bool) → test k (not64 (sstatus_mask v)) ≡ 1
  pub writable : (s f v h e : Bool) → test k (mstatus_mask s f v h e) ≡ 1
  pub not_kept : (s f v h e : Bool) → test k (not64 (mstatus_mask s f v h e)) ≡ 0

module _ (c : Config) (s : State) (val k : ℕ) where
  kept : IsMachineBit k → test k (set_sstatus c s val).mstatus ≡ test k s.mstatus
  unfolding set_sstatus
  kept b =
      let has_v = supports s letter_v in
      let mask = sstatus_mask has_v in
      set_mstatus-in c s _ k b.plain b.not_fs
        (b.writable (supports s letter_s) (supports s letter_f) has_v (supports s letter_h)
          c.has_coprocessor)
        (b.not_kept (supports s letter_s) (supports s letter_f) has_v (supports s letter_h)
          c.has_coprocessor)
      ∙ test-merge_out k (not64 mask) mask s.mstatus val (b.not_inside has_v) (b.outside has_v)

module _ (k : ℕ) where
  machine_bit :
      IsPlain k
      → test k mstatus_fs ≡ 0
      → every (λ v. test k (sstatus_mask v) == 0) ≡ true
      → every (λ v. test k (not64 (sstatus_mask v)) == 1) ≡ true
      → ((s f v h e : Bool) → test k (mstatus_mask s f v h e) ≡ 1)
      → ((s f v h e : Bool) → test k (not64 (mstatus_mask s f v h e)) ≡ 0)
      → IsMachineBit k
  machine_bit p f o i w n = record {
    plain = p;
    not_fs = f;
    outside = λ v. (==_iff _ _).0 (every_sound (λ b. test k (sstatus_mask b) == 0) o v);
    not_inside = λ v. (==_iff _ _).0 (every_sound (λ b. test k (not64 (sstatus_mask b)) == 1) i v);
    writable = w;
    not_kept = n;
  }

-- MIE, MPIE, MPRV, TVM, TW and TSR.
pub record SameMachine (a b : ℕ) : Type 0 where
  pub mie : test 3 a ≡ test 3 b
  pub mpie : test 7 a ≡ test 7 b
  pub mprv : test 17 a ≡ test 17 b
  pub tvm : test 20 a ≡ test 20 b
  pub tw : test 21 a ≡ test 21 b
  pub tsr : test 22 a ≡ test 22 b

-- A supervisor that writes `sstatus` cannot change the interrupt enables of the machine, MPRV, or the
-- traps of its own instructions, whatever it writes.
pub set_sstatus-SameMachine :
    (c : Config) (s : State) (val : ℕ) → SameMachine (set_sstatus c s val).mstatus s.mstatus
unfolding mstatus_mask
set_sstatus-SameMachine c s val = record {
  mie = kept c s val 3 (
      machine_bit 3 (ground arith) refl refl refl (mask-bit true (λ m. m) 3 1 refl)
        (mask-bit true not64 3 0 refl));
  mpie = kept c s val 7 (
      machine_bit 7 (ground arith) refl refl refl (mask-bit true (λ m. m) 7 1 refl)
        (mask-bit true not64 7 0 refl));
  mprv = kept c s val 17 (
      machine_bit 17 (ground arith) refl refl refl (mask-bit true (λ m. m) 17 1 refl)
        (mask-bit true not64 17 0 refl));
  tvm = kept c s val 20 (
      machine_bit 20 (ground arith) refl refl refl (mask-bit true (λ m. m) 20 1 refl)
        (mask-bit true not64 20 0 refl));
  tw = kept c s val 21 (
      machine_bit 21 (ground arith) refl refl refl (mask-bit true (λ m. m) 21 1 refl)
        (mask-bit true not64 21 0 refl));
  tsr = kept c s val 22 (
      machine_bit 22 (ground arith) refl refl refl (mask-bit true (λ m. m) 22 1 refl)
        (mask-bit true not64 22 0 refl));
}
