-- ===== src/Processor/Legal/Status.antt =====
-- Writes keep FS off or dirty, and SD in step with the fields that it sums up.
use Prim.Native.Nat.{min, max}
use processorfuzz.Base.{ℕ, ◌*◌, ◌/◌, ◌%◌, ◌^◌, ◌≡◌, refl, sym, ◌∙◌, arith}
use processorfuzz.Base.{bit_and, bit_or, Bool, ◌==◌, if◌then◌else◌, Bool-cases, inl, inr, ==_iff}
use processorfuzz.Base.Digits.{test, test-bit_and, test-bit_or, bit_and_pair}
use processorfuzz.Processor.Number.{
  Csr, csr_vstval, csr_mtval2, csr_mtinst, csr_htimedelta, csr_htimedeltah, csr_fflags, csr_frm,
  csr_fcsr, csr_vcsr, csr_vstart, csr_vxsat, csr_vxrm, csr_mstatus, csr_sstatus,
}
use processorfuzz.Processor.State.{
  State, Config, ok, threw, Ensures, Ensures-if, supports, letter_h, letter_s, letter_u, letter_f,
  letter_v, not64, set_field, get_field,
}
use processorfuzz.Processor.Masks.{mstatus_fs, mstatus_vs, mstatus64_sd, mstatus_mpp}
use processorfuzz.Processor.Registers.{illegal_instruction}
use processorfuzz.Processor.Status.{merge_mstatus, legalize_privilege, set_mstatus}
use processorfuzz.Processor.Write.{write_csr}
use processorfuzz.Processor.Legal.{LegalStatus, StatusLegal}
use processorfuzz.Processor.Legal.Fields.{mask-fs, set_field-out, derive_mstatus-LegalStatus}

merged :
    (k mask old val rocket : ℕ)
    → test k (bit_or (bit_and old (not64 mask)) (bit_or (bit_and val mask) rocket))
      ≡ max
          (min (test k old) (test k (not64 mask)))
          (max (min (test k val) (test k mask)) (test k rocket))
merged k mask old val rocket =
    test-bit_or k (bit_and old (not64 mask)) (bit_or (bit_and val mask) rocket)
    ∙ rw
        (
          test-bit_and k old (not64 mask),
          test-bit_or k (bit_and val mask) rocket,
          test-bit_and k val mask,
        )
        refl

-- The two bits of FS come out alike: both set where the written value has one of them, and else
-- kept or cleared together.
merge_mstatus-fs :
    (mask old val : ℕ)
    → test 13 (not64 mask) ≡ test 14 (not64 mask)
    → test 13 old ≡ test 14 old
    → test 13 (merge_mstatus mask old val) ≡ test 14 (merge_mstatus mask old val)
unfolding merge_mstatus
merge_mstatus-fs mask old val m o = elim (Bool-cases (bit_and val mstatus_fs == 0)) [
  | inl e ↦
      let none : bit_and val (3 * 2 ^ 13) ≡ 0 = (==_iff _ _).0 e in
      let zero : val / 2 ^ 13 % 4 * 2 ^ 13 ≡ 0 = sym (bit_and_pair 13 val) ∙ none in
      let low : test 13 val ≡ 0 = omega (arith, zero) in
      let high : test 14 val ≡ 0 = omega (arith, zero) in
      rw (e, merged 13 mask old val 0, merged 14 mask old val 0, low, high, m, o) (omega arith)
  | inr e ↦
      rw (e, merged 13 mask old val mstatus_fs, merged 14 mask old val mstatus_fs) (omega arith)
]

set_mstatus-StatusLegal :
    (c : Config) (s : State) (val : ℕ) → StatusLegal s → StatusLegal (set_mstatus c s val)
unfolding set_mstatus
set_mstatus-StatusLegal c s val v =
    let mpp = legalize_privilege s (get_field val mstatus_mpp) in
    let old = set_field s.mstatus mstatus_mpp mpp in
    let kept : test 13 old ≡ test 14 old =
      set_field-out 13 mstatus_mpp s.mstatus mpp refl refl
      ∙ v.fs
      ∙ sym (set_field-out 14 mstatus_mpp s.mstatus mpp refl refl) in
    derive_mstatus-LegalStatus (supports s letter_u) (supports s letter_s) _ (
      merge_mstatus-fs _ old val
        (mask-fs (supports s letter_s) (supports s letter_f) (supports s letter_v)
          (supports s letter_h) c.has_coprocessor)
        kept)

bit_set : (k m extra : ℕ) → test k extra ≡ 1 → test k (bit_or m extra) ≡ 1
bit_set k m extra e = test-bit_or k m extra ∙ rw e (omega arith)

bit_kept : (k m extra : ℕ) → test k extra ≡ 0 → test k (bit_or m extra) ≡ test k m
bit_kept k m extra e = test-bit_or k m extra ∙ rw e (omega arith)

abbrev fp_extra : ℕ
fp_extra = bit_or mstatus_fs mstatus64_sd

abbrev vs_extra : ℕ
vs_extra = bit_or mstatus_vs mstatus64_sd

-- An access of the floating-point state sets FS and SD.
dirty_fp : (m : ℕ) → LegalStatus (bit_or m fp_extra)
dirty_fp m = record {
  fs = bit_set 13 m fp_extra refl ∙ sym (bit_set 14 m fp_extra refl);
  sd = λ d. bit_set 63 m fp_extra refl;
}

-- An access of the vector state keeps FS, and sets SD.
dirty_vs : (m : ℕ) → LegalStatus m → LegalStatus (bit_or m vs_extra)
dirty_vs m h = record {
  fs = bit_kept 13 m vs_extra refl ∙ h.fs ∙ sym (bit_kept 14 m vs_extra refl);
  sd = λ d. bit_set 63 m vs_extra refl;
}

module _ (c : Config) (s : State) (v : StatusLegal s) where
  kept-if :
      (b : Bool) (s' : State)
      → StatusLegal s'
      → Ensures StatusLegal (if b then ok s' else threw (illegal_instruction 0))
  kept-if b s' k = Ensures-if StatusLegal b s' (illegal_instruction 0) k

  pub write_csr-StatusLegal : (r : Csr) (val : ℕ) → Ensures StatusLegal (write_csr c s r val)
  unfolding write_csr
  write_csr-StatusLegal csr_fflags val = dirty_fp s.mstatus
  write_csr-StatusLegal csr_frm val = dirty_fp s.mstatus
  write_csr-StatusLegal csr_fcsr val = dirty_fp s.mstatus
  write_csr-StatusLegal csr_vcsr val = dirty_vs s.mstatus v
  write_csr-StatusLegal csr_vstart val = dirty_vs s.mstatus v
  write_csr-StatusLegal csr_vxsat val = dirty_vs s.mstatus v
  write_csr-StatusLegal csr_vxrm val = dirty_vs s.mstatus v
  write_csr-StatusLegal csr_mstatus val = set_mstatus-StatusLegal c s val v
  write_csr-StatusLegal csr_sstatus val = set_mstatus-StatusLegal c s _ v
  write_csr-StatusLegal csr_mtval2 val = kept-if (supports s letter_h) _ v
  write_csr-StatusLegal csr_mtinst val = kept-if (supports s letter_h) _ v
  write_csr-StatusLegal csr_htimedelta val = tt
  write_csr-StatusLegal csr_htimedeltah val = tt
  write_csr-StatusLegal csr_vstval val = v
  write_csr-StatusLegal _ val = v
