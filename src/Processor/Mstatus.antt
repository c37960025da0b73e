-- ===== src/Processor/Mstatus.antt =====
-- The fields of `mstatus` after a write, bit by bit: `case CSR_MSTATUS` of riscv/processor.cc.
use Prim.Native.Nat.{min, max}
use processorfuzz.Base.{ℕ, ◌*◌, ◌/◌, ◌%◌, ◌^◌, ◌<◌, ◌≡◌, refl, ◌∙◌, arith}
use processorfuzz.Base.{bit_and, bit_or, Bool, true, false, not, ◌&&◌, ◌==◌, of_bool, ==_iff}
use processorfuzz.Base.Digits.{test, test-bit_and, test-bit_or, test-merge_in}
use processorfuzz.Processor.State.{
  State, Config, supports, letter_h, letter_s, letter_u, letter_f, letter_v, not64, set_field,
  get_field,
}
use processorfuzz.Processor.Masks.{
  on, mstatus_fs, mstatus64_sd, mstatus_uxl, mstatus_sxl, mstatus_mpp,
}
use processorfuzz.Processor.Status.{
  is_dirty, mstatus_mask, merge_mstatus, derive_mstatus, legalize_privilege, set_mstatus,
}
use processorfuzz.Processor.Legal.Delegation.{zero_bits}
use processorfuzz.Processor.Legal.Fields.{set_field-out, every, every_sound5, maybe_set}

-- A bit that no derived field covers.
pub record IsPlain (k : ℕ) : Type 0 where
  pub sd : test k mstatus64_sd ≡ 0
  pub not_sd : test k (not64 mstatus64_sd) ≡ 1
  pub uxl : test k mstatus_uxl ≡ 0
  pub not_uxl : test k (not64 mstatus_uxl) ≡ 1
  pub sxl : test k mstatus_sxl ≡ 0
  pub not_sxl : test k (not64 mstatus_sxl) ≡ 1

maybe_set-out :
    (k : ℕ) (b : Bool) (mask m : ℕ)
    → test k (not64 mask) ≡ 1
    → test k mask ≡ 0
    → test k (maybe_set b mask m) ≡ test k m
unfolding maybe_set
maybe_set-out k true mask m o i = set_field-out k mask m 2 o i
maybe_set-out k false mask m o i = refl

derive_mstatus-IsPlain :
    (k : ℕ) (has_u has_s : Bool) (m : ℕ)
    → IsPlain k
    → test k (derive_mstatus has_u has_s m) ≡ test k m
unfolding derive_mstatus maybe_set
derive_mstatus-IsPlain k has_u has_s m p =
    let m1 = set_field m mstatus64_sd (of_bool (is_dirty m)) in
    maybe_set-out k has_s mstatus_sxl (maybe_set has_u mstatus_uxl m1) p.not_sxl p.sxl
    ∙ maybe_set-out k has_u mstatus_uxl m1 p.not_uxl p.uxl
    ∙ set_field-out k mstatus64_sd m _ p.not_sd p.sd

-- Where the mask has a plain bit, the write sets it, and elsewhere the old value keeps it.
merged :
    (k mask old val rocket : ℕ)
    → test k rocket ≡ 0
    → test k (bit_or (bit_and old (not64 mask)) (bit_or (bit_and val mask) rocket))
      ≡ max (min (test k old) (test k (not64 mask))) (min (test k val) (test k mask))
merged k mask old val rocket z =
    test-bit_or k (bit_and old (not64 mask)) (bit_or (bit_and val mask) rocket)
    ∙ rw
        (
          test-bit_and k old (not64 mask),
          test-bit_or k (bit_and val mask) rocket,
          test-bit_and k val mask,
          z,
        )
        (omega arith)

test-on : (k mask : ℕ) (b : Bool) → test k mask ≡ 0 → test k (on b mask) ≡ 0
test-on k mask true h = h
test-on k mask false h = zero_bits k

-- What a write merges: the mask, and the old value with the new MPP.
abbrev pub write_mask : Config → State → ℕ
write_mask c s =
    mstatus_mask (supports s letter_s) (supports s letter_f) (supports s letter_v)
      (supports s letter_h) c.has_coprocessor

abbrev pub requested_mpp : State → ℕ → ℕ
requested_mpp s val = legalize_privilege s (get_field val mstatus_mpp)

abbrev before : State → ℕ → ℕ
before s val = set_field s.mstatus mstatus_mpp (requested_mpp s val)

module _ (c : Config) (s : State) (val k : ℕ) (p : IsPlain k) (fs : test k mstatus_fs ≡ 0) where
  written :
      test k (set_mstatus c s val).mstatus
      ≡ max
          (min (test k (before s val)) (test k (not64 (write_mask c s))))
          (min (test k val) (test k (write_mask c s)))
  unfolding set_mstatus merge_mstatus
  written =
      derive_mstatus-IsPlain k (supports s letter_u) (supports s letter_s) _ p
      ∙ merged k (write_mask c s) (before s val) val _
          (test-on k mstatus_fs (not (bit_and val mstatus_fs == 0)) fs)

  pub set_mstatus-in :
      test k (write_mask c s) ≡ 1
      → test k (not64 (write_mask c s)) ≡ 0
      → test k (set_mstatus c s val).mstatus ≡ test k val
  set_mstatus-in i o = written ∙ rw (i, o) (omega arith)

  pub set_mstatus-out :
      test k (write_mask c s) ≡ 0
      → test k (not64 (write_mask c s)) ≡ 1
      → test k (set_mstatus c s val).mstatus ≡ test k (before s val)
  set_mstatus-out i o = written ∙ rw (i, o) (omega arith)

-- A bit of the mask, or of its complement, that does not depend on the extensions.
module _ (guest : Bool) (view : ℕ → ℕ) (k b : ℕ) where
  abbrev bit_is : Bool → Bool → Bool → Bool → Bool → Bool
  bit_is s f v h e = test k (view (mstatus_mask s f v (guest && h) e)) == b

  pub mask-bit :
      every (λ s. every (λ f. every (λ v. every (λ h. every (bit_is s f v h))))) ≡ true
      → (s f v h e : Bool) → test k (view (mstatus_mask s f v (guest && h) e)) ≡ b
  mask-bit t s f v h e = (==_iff _ _).0 (every_sound5 bit_is t s f v h e)

pub record FixedBits (m : ℕ) : Type 0 where
  pub mie : test 3 m ≡ 1
  pub mpie : test 7 m ≡ 1
  pub not_mie : test 3 (not64 m) ≡ 0
  pub not_mpie : test 7 (not64 m) ≡ 0
  pub mpp0 : test 11 m ≡ 0
  pub mpp1 : test 12 m ≡ 0
  pub not_mpp0 : test 11 (not64 m) ≡ 1
  pub not_mpp1 : test 12 (not64 m) ≡ 1

-- The mask has MIE and MPIE whatever the extensions, and MPP never.
pub mask-FixedBits : (s f v h e : Bool) → FixedBits (mstatus_mask s f v h e)
unfolding mstatus_mask
mask-FixedBits s f v h e = record {
  mie = mask-bit true (λ m. m) 3 1 refl s f v h e;
  mpie = mask-bit true (λ m. m) 7 1 refl s f v h e;
  not_mie = mask-bit true not64 3 0 refl s f v h e;
  not_mpie = mask-bit true not64 7 0 refl s f v h e;
  mpp0 = mask-bit true (λ m. m) 11 0 refl s f v h e;
  mpp1 = mask-bit true (λ m. m) 12 0 refl s f v h e;
  not_mpp0 = mask-bit true not64 11 1 refl s f v h e;
  not_mpp1 = mask-bit true not64 12 1 refl s f v h e;
}

-- Without guests the mask has no MPV.
mask-mpv : (s f v e : Bool) → test 39 (mstatus_mask s f v false e) ≡ 0
unfolding mstatus_mask
mask-mpv s f v e = mask-bit false (λ m. m) 39 0 refl s f v false e

not_mask-mpv : (s f v e : Bool) → test 39 (not64 (mstatus_mask s f v false e)) ≡ 1
unfolding mstatus_mask
not_mask-mpv s f v e = mask-bit false not64 39 1 refl s f v false e

module _ (c : Config) (s : State) (val : ℕ) where
  abbrev has : ℕ → Bool
  has letter = supports s letter

  fixed : FixedBits (write_mask c s)
  fixed =
      mask-FixedBits (has letter_s) (has letter_f) (has letter_v) (has letter_h) c.has_coprocessor

  pub set_mstatus-mie : test 3 (set_mstatus c s val).mstatus ≡ test 3 val
  set_mstatus-mie = set_mstatus-in c s val 3 (ground arith) refl fixed.mie fixed.not_mie

  pub set_mstatus-mpie : test 7 (set_mstatus c s val).mstatus ≡ test 7 val
  set_mstatus-mpie = set_mstatus-in c s val 7 (ground arith) refl fixed.mpie fixed.not_mpie

  pub set_mstatus-mpp :
      requested_mpp s val < 4
      → (test 11 (set_mstatus c s val).mstatus ≡ requested_mpp s val % 2)
        × (test 12 (set_mstatus c s val).mstatus ≡ requested_mpp s val / 2 % 2)
  unfolding set_field
  set_mstatus-mpp h =
      let p = requested_mpp s val in
      (
        set_mstatus-out c s val 11 (ground arith) refl fixed.mpp0 fixed.not_mpp0
            ∙ test-merge_in 11 (not64 mstatus_mpp) mstatus_mpp s.mstatus (p * 2048 % 2 ^ 64) refl
                refl
            ∙ omega (arith, h),
        set_mstatus-out c s val 12 (ground arith) refl fixed.mpp1 fixed.not_mpp1
            ∙ test-merge_in 12 (not64 mstatus_mpp) mstatus_mpp s.mstatus (p * 2048 % 2 ^ 64) refl
                refl
            ∙ omega (arith, h),
      )

  pub set_mstatus-mpv :
      supports s letter_h ≡ false → test 39 (set_mstatus c s val).mstatus ≡ test 39 s.mstatus
  set_mstatus-mpv h =
      set_mstatus-out c s val 39 (ground arith) refl
        (rw h (mask-mpv (has letter_s) (has letter_f) (has letter_v) c.has_coprocessor))
        (rw h (not_mask-mpv (has letter_s) (has letter_f) (has letter_v) c.has_coprocessor))
      ∙ set_field-out 39 mstatus_mpp s.mstatus (requested_mpp s val) refl refl
