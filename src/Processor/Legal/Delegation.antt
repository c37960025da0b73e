-- ===== src/Processor/Legal/Delegation.antt =====
-- Writes keep the delegation registers legal.
use processorfuzz.Base.{ℕ, ◌%◌, ◌^◌, ◌≡◌, refl, ap, ◌∙◌, arith}
use processorfuzz.Base.{bit_and, bit_or, Bool, true, false, if◌then◌else◌}
use processorfuzz.Base.Digits.{test, test-bit_and, test-bit_or, test-merge_zero}
use native.Mathlib.Nat.{zero-div}
use processorfuzz.Processor.Number.{
  Csr, csr_vstval, csr_mtval2, csr_mtinst, csr_htimedelta, csr_htimedeltah, csr_medeleg,
  csr_mideleg, csr_misa,
}
use processorfuzz.Processor.State.{
  State, Config, ok, threw, Ensures, Ensures-if, supports, letter_h, letter_s, not64,
}
use processorfuzz.Processor.Registers.{illegal_instruction}
use processorfuzz.Processor.Write.{write_csr}
use processorfuzz.Processor.Legal.{DelegationLegal}
use processorfuzz.Processor.Masks.{on, mip_hs_mask, irq_cop}
use processorfuzz.Processor.Interrupts.{delegable_ints, medeleg_mask}

pub zero_bits : (k : ℕ) → test k 0 ≡ 0
zero_bits k = ap (λ n. n % 2) (zero-div (2 ^ k))

test-on : (k mask : ℕ) (b : Bool) → test k mask ≡ 0 → test k (on b mask) ≡ 0
test-on k mask true h = h
test-on k mask false h = zero_bits k

delegable_zero :
    (c : Config) (s : State) (k : ℕ)
    → test k 0x222 ≡ 0
    → test k (2 ^ irq_cop) ≡ 0
    → test k (delegable_ints c s) ≡ 0
delegable_zero c s k h e =
    test-bit_or k (on (supports s letter_s) 0x222) (on c.has_coprocessor (2 ^ irq_cop))
    ∙ rw (test-on k 0x222 (supports s letter_s) h, test-on k (2 ^ irq_cop) c.has_coprocessor e)
        (omega arith)

misa_keeps :
    (k : ℕ) (ignored has_h : Bool) (mideleg : ℕ)
    → test k mip_hs_mask ≡ 0
    → test k mideleg ≡ 0
    → test k (
        if ignored
        then mideleg
        else if has_h
        then bit_or mideleg mip_hs_mask
        else bit_and mideleg (not64 mip_hs_mask))
      ≡ 0
misa_keeps k true has_h m e h = h
misa_keeps k false true m e h = test-bit_or k m mip_hs_mask ∙ rw (h, e) (omega arith)
misa_keeps k false false m e h = test-bit_and k m (not64 mip_hs_mask) ∙ rw h (omega arith)

module _ (c : Config) (s : State) (v : DelegationLegal s) where
  kept-if :
      (b : Bool) (s' : State)
      → DelegationLegal s'
      → Ensures DelegationLegal (if b then ok s' else threw (illegal_instruction 0))
  kept-if b s' k = Ensures-if DelegationLegal b s' (illegal_instruction 0) k

  pub write_csr-DelegationLegal :
      (r : Csr) (val : ℕ) → Ensures DelegationLegal (write_csr c s r val)
  unfolding write_csr
  write_csr-DelegationLegal csr_medeleg val = record {
    exceptions = λ k h.
        test-merge_zero k (not64 medeleg_mask) medeleg_mask s.medeleg val h (v.exceptions k h);
    software = v.software;
    timer = v.timer;
    external = v.external;
  }
  write_csr-DelegationLegal csr_mideleg val = record {
    exceptions = v.exceptions;
    software =
        test-merge_zero 3 (not64 (delegable_ints c s)) (delegable_ints c s) s.mideleg val
          (delegable_zero c s 3 refl refl) v.software;
    timer =
        test-merge_zero 7 (not64 (delegable_ints c s)) (delegable_ints c s) s.mideleg val
          (delegable_zero c s 7 refl refl) v.timer;
    external =
        test-merge_zero 11 (not64 (delegable_ints c s)) (delegable_ints c s) s.mideleg val
          (delegable_zero c s 11 refl refl) v.external;
  }
  write_csr-DelegationLegal csr_misa val = record {
    exceptions = v.exceptions;
    software = misa_keeps 3 _ _ s.mideleg refl v.software;
    timer = misa_keeps 7 _ _ s.mideleg refl v.timer;
    external = misa_keeps 11 _ _ s.mideleg refl v.external;
  }
  write_csr-DelegationLegal csr_mtval2 val = kept-if (supports s letter_h) _ v
  write_csr-DelegationLegal csr_mtinst val = kept-if (supports s letter_h) _ v
  write_csr-DelegationLegal csr_htimedelta val = tt
  write_csr-DelegationLegal csr_htimedeltah val = tt
  write_csr-DelegationLegal csr_vstval val = v
  write_csr-DelegationLegal _ val = v
