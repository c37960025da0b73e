-- ===== src/Processor/Legal/Fields.antt =====
-- The fields FS, XS, VS and SD of `mstatus` under the operations of `set_csr` of
-- riscv/processor.cc.
use processorfuzz.Base.{ℕ, ◌*◌, ◌/◌, ◌%◌, ◌^◌, ◌≡◌, refl, sym, ◌∙◌, arith}
use processorfuzz.Base.{bit_and, Bool, true, false, ◌&&◌, ◌==◌, if◌then◌else◌, of_bool}
use processorfuzz.Base.{==_iff}
use processorfuzz.Base.Digits.{test, test-merge_in, test-merge_out, bit_and_pair}
use processorfuzz.Processor.Number.{}
use processorfuzz.Processor.State.{not64, set_field}
use processorfuzz.Processor.Masks.{mstatus64_sd, mstatus_uxl, mstatus_sxl}
use processorfuzz.Processor.Status.{is_dirty, mstatus_mask, derive_mstatus}
use processorfuzz.Processor.Legal.{LegalStatus}

-- A test that holds at both Booleans.
abbrev pub every : (Bool → Bool) → Bool
every p = p true && p false

pub every_sound : (p : Bool → Bool) → every p ≡ true → (b : Bool) → p b ≡ true
every_sound p h true = ground arith
every_sound p h false = ground arith

-- A test of five Booleans that holds at all of them.
pub every_sound5 :
    (p : Bool → Bool → Bool → Bool → Bool → Bool)
    → every (λ s. every (λ f. every (λ v. every (λ h. every (p s f v h))))) ≡ true
    → (s f v h e : Bool) → p s f v h e ≡ true
every_sound5 p t s f v h e =
    let at_s = every_sound (λ x. every (λ f. every (λ v. every (λ h. every (p x f v h))))) t s in
    let at_f = every_sound (λ x. every (λ v. every (λ h. every (p s x v h)))) at_s f in
    let at_v = every_sound (λ x. every (λ h. every (p s f x h))) at_f v in
    every_sound (p s f v h) (every_sound (λ x. every (p s f v x)) at_v h) e

same_in_mask : Bool → Bool → Bool → Bool → Bool → Bool
same_in_mask s f v h e =
    (test 13 (not64 (mstatus_mask s f v h e)) == test 14 (not64 (mstatus_mask s f v h e)))

mask_table : every (λ s. every (λ f. every (λ v. every (λ h. every (same_in_mask s f v h))))) ≡ true
unfolding same_in_mask mstatus_mask
mask_table = refl

-- The two bits of FS are both in the mask, or neither is.
pub mask-fs :
    (s f v h e : Bool)
    → test 13 (not64 (mstatus_mask s f v h e)) ≡ test 14 (not64 (mstatus_mask s f v h e))
unfolding same_in_mask
mask-fs s f v h e = (==_iff _ _).0 (every_sound5 same_in_mask mask_table s f v h e)

-- A set of a field keeps the bits outside it.
pub set_field-out :
    (k mask reg val : ℕ)
    → test k (not64 mask) ≡ 1
    → test k mask ≡ 0
    → test k (set_field reg mask val) ≡ test k reg
unfolding set_field
set_field-out k mask reg val o m = test-merge_out k (not64 mask) mask reg _ o m

-- Two numbers with the same FS, XS and VS.
pub record SameStatus (a b : ℕ) : Type 0 where
  vs0 : test 9 a ≡ test 9 b
  vs1 : test 10 a ≡ test 10 b
  fs0 : test 13 a ≡ test 13 b
  fs1 : test 14 a ≡ test 14 b
  xs0 : test 15 a ≡ test 15 b
  xs1 : test 16 a ≡ test 16 b

-- A mask that leaves FS, XS and VS out.
record IsOutside (mask : ℕ) : Type 0 where
  inside : SameStatus mask 0
  others : SameStatus (not64 mask) (not64 0)

IsOutside-sd : IsOutside mstatus64_sd
IsOutside-sd = ground arith

IsOutside-uxl : IsOutside mstatus_uxl
IsOutside-uxl = ground arith

IsOutside-sxl : IsOutside mstatus_sxl
IsOutside-sxl = ground arith

set_field-SameStatus : (mask reg val : ℕ) → IsOutside mask → SameStatus (set_field reg mask val) reg
set_field-SameStatus mask reg val h = record {
  vs0 = set_field-out 9 mask reg val h.others.vs0 h.inside.vs0;
  vs1 = set_field-out 10 mask reg val h.others.vs1 h.inside.vs1;
  fs0 = set_field-out 13 mask reg val h.others.fs0 h.inside.fs0;
  fs1 = set_field-out 14 mask reg val h.others.fs1 h.inside.fs1;
  xs0 = set_field-out 15 mask reg val h.others.xs0 h.inside.xs0;
  xs1 = set_field-out 16 mask reg val h.others.xs1 h.inside.xs1;
}

SameStatus-pair :
    (k a b : ℕ) → a / 2 ^ k % 4 ≡ b / 2 ^ k % 4 → bit_and a (3 * 2 ^ k) ≡ bit_and b (3 * 2 ^ k)
SameStatus-pair k a b h = bit_and_pair k a ∙ rw h (sym (bit_and_pair k b))

is_dirty-SameStatus : (a b : ℕ) → SameStatus a b → is_dirty a ≡ is_dirty b
unfolding is_dirty
is_dirty-SameStatus a b h =
    let fs = SameStatus-pair 13 a b (omega (arith, h.fs0, h.fs1)) in
    let xs = SameStatus-pair 15 a b (omega (arith, h.xs0, h.xs1)) in
    let vs = SameStatus-pair 9 a b (omega (arith, h.vs0, h.vs1)) in rw (fs, xs, vs) refl

SameStatus-trans : (a b c : ℕ) → SameStatus a b → SameStatus b c → SameStatus a c
SameStatus-trans a b c p q = record {
  vs0 = p.vs0 ∙ q.vs0;
  vs1 = p.vs1 ∙ q.vs1;
  fs0 = p.fs0 ∙ q.fs0;
  fs1 = p.fs1 ∙ q.fs1;
  xs0 = p.xs0 ∙ q.xs0;
  xs1 = p.xs1 ∙ q.xs1;
}

SameStatus-refl : (a : ℕ) → SameStatus a a
SameStatus-refl a = ground arith

-- SD is set or cleared as asked.
set_field-sd : (m : ℕ) (b : Bool) → test 63 (set_field m mstatus64_sd (of_bool b)) ≡ of_bool b
unfolding set_field
set_field-sd m true = test-merge_in 63 (not64 mstatus64_sd) mstatus64_sd m (2 ^ 63) refl refl
set_field-sd m false = test-merge_in 63 (not64 mstatus64_sd) mstatus64_sd m 0 refl refl

-- A field that is set only on a condition.
unfoldable pub maybe_set : (b : Bool) (mask : ℕ) → ℕ → ℕ
maybe_set b mask m = if b then set_field m mask 2 else m

maybe_set-SameStatus : (b : Bool) (mask m : ℕ) → IsOutside mask → SameStatus (maybe_set b mask m) m
unfolding maybe_set
maybe_set-SameStatus true mask m h = set_field-SameStatus mask m 2 h
maybe_set-SameStatus false mask m h = SameStatus-refl m

pub maybe_set-sd :
    (b : Bool) (mask m : ℕ)
    → test 63 (not64 mask) ≡ 1
    → test 63 mask ≡ 0
    → test 63 (maybe_set b mask m) ≡ test 63 m
unfolding maybe_set
maybe_set-sd true mask m o i = set_field-out 63 mask m 2 o i
maybe_set-sd false mask m o i = refl

sd_matters : (b : Bool) → b ≡ true → of_bool b ≡ 1
sd_matters true h = refl
sd_matters false h = cc

pub derive_mstatus-LegalStatus :
    (has_u has_s : Bool) (m : ℕ)
    → test 13 m ≡ test 14 m
    → LegalStatus (derive_mstatus has_u has_s m)
unfolding derive_mstatus maybe_set
derive_mstatus-LegalStatus has_u has_s m h =
    let m1 = set_field m mstatus64_sd (of_bool (is_dirty m)) in
    let m2 = maybe_set has_u mstatus_uxl m1 in
    let m3 = maybe_set has_s mstatus_sxl m2 in
    let same2 =
      SameStatus-trans m2 m1 m (maybe_set-SameStatus has_u mstatus_uxl m1 IsOutside-uxl)
        (set_field-SameStatus mstatus64_sd m _ IsOutside-sd) in
    let same =
      SameStatus-trans m3 m2 m (maybe_set-SameStatus has_s mstatus_sxl m2 IsOutside-sxl) same2 in
    let sd =
      maybe_set-sd has_s mstatus_sxl m2 refl refl
      ∙ maybe_set-sd has_u mstatus_uxl m1 refl refl
      ∙ set_field-sd m (is_dirty m) in
    record {
      fs = same.fs0 ∙ h ∙ sym same.fs1;
      sd = λ d. sd ∙ sd_matters (is_dirty m) (sym (is_dirty-SameStatus m3 m same) ∙ d);
    }
