-- ===== src/Processor/Status.antt =====
-- Writes of the floating-point, vector and status registers: the cases of `set_csr` of
-- riscv/processor.cc, and `legalize_privilege`.
use processorfuzz.Base.{ℕ, ◌-◌, ◌/◌, ◌^◌, bit_and, bit_or}
use processorfuzz.Base.{Bool, not, ◌&&◌, ◌||◌, ◌==◌, of_bool, if◌then◌else◌, [], ◌∷◌}
use processorfuzz.Processor.State.{State, Config, supports, get_field, set_field, not64}
use processorfuzz.Processor.State.{prv_u, prv_s, prv_hs, prv_m}
use processorfuzz.Processor.State.{letter_f, letter_h, letter_s, letter_u, letter_v}
use processorfuzz.Processor.Masks.{
  or_of, on, mstatus_sie, mstatus_mie, mstatus_spie, mstatus_mpie, mstatus_spp, mstatus_vs,
  mstatus_mpp, mstatus_fs, mstatus_xs, mstatus_mprv, mstatus_sum, mstatus_mxr, mstatus_tvm,
  mstatus_tw, mstatus_tsr, mstatus_uxl, mstatus_sxl, mstatus_gva, mstatus_mpv, mstatus64_sd,
}

-- A privilege above M fails the assertion; no caller passes one, since the field has two bits and
-- `prv` is legal.
unfoldable pub legalize_privilege : State → ℕ → ℕ
legalize_privilege s prv =
    if not (supports s letter_u)
    then prv_m
    else if (prv == prv_hs && not (supports s letter_h))
        || (prv == prv_s && not (supports s letter_s))
    then prv_u
    else prv

abbrev pub dirty_fp_state : State → State
dirty_fp_state s = record s { mstatus = bit_or s.mstatus (bit_or mstatus_fs mstatus64_sd) }

abbrev pub dirty_vs_state : State → State
dirty_vs_state s = record s { mstatus = bit_or s.mstatus (bit_or mstatus_vs mstatus64_sd) }

unfoldable pub set_fflags : State → ℕ → State
set_fflags s val = record (dirty_fp_state s) { fflags = bit_and val 0x1f }

unfoldable pub set_frm : State → ℕ → State
set_frm s val = record (dirty_fp_state s) { frm = bit_and val 0x7 }

unfoldable pub set_fcsr : State → ℕ → State
set_fcsr s val = record (dirty_fp_state s) {
  fflags = bit_and val 0x1f;
  frm = bit_and val 0xe0 / 2 ^ 5;
}

unfoldable pub set_vcsr : State → ℕ → State
set_vcsr s val = record (dirty_vs_state s) {
  vxsat = bit_and val 0x1;
  vxrm = bit_and val 0x6 / 2 ^ 1;
}

-- The bits of `mstatus` that a write can set, by the extensions S, F, V and H, and a coprocessor.
unfoldable pub mstatus_mask : (has_s has_f has_v has_h has_ext : Bool) → ℕ
mstatus_mask has_s has_f has_v has_h has_ext = or_of (
    mstatus_mie
    ∷ mstatus_mpie
    ∷ mstatus_mprv
    ∷ on has_s (or_of (mstatus_sum ∷ mstatus_sie ∷ mstatus_spie ∷ []))
    ∷ mstatus_mxr
    ∷ mstatus_tw
    ∷ mstatus_tvm
    ∷ mstatus_tsr
    ∷ on (has_s || has_f || has_v) mstatus_fs
    ∷ on has_v mstatus_vs
    ∷ on has_ext mstatus_xs
    ∷ on (has_s && has_h) mstatus_gva
    ∷ on (has_s && has_h) mstatus_mpv
    ∷ on has_s mstatus_spp
    ∷ [])

-- FS, XS or VS says that the state is dirty.
unfoldable pub is_dirty : ℕ → Bool
is_dirty m =
    bit_and m mstatus_fs == mstatus_fs
    || bit_and m mstatus_xs == mstatus_xs
    || bit_and m mstatus_vs == mstatus_vs

-- The merge of the written value, MPP aside: FS is either off or dirty, as on Rocket.
unfoldable pub merge_mstatus : (mask old val : ℕ) → ℕ
merge_mstatus mask old val =
    let rocket_mask = on (not (bit_and val mstatus_fs == 0)) mstatus_fs in
    bit_or (bit_and old (not64 mask)) (bit_or (bit_and val mask) rocket_mask)

-- The fields that follow from the others or are fixed: SD, UXL and SXL.
unfoldable pub derive_mstatus : (has_u has_s : Bool) → ℕ → ℕ
derive_mstatus has_u has_s m =
    let m1 = set_field m mstatus64_sd (of_bool (is_dirty m)) in
    let m2 = if has_u then set_field m1 mstatus_uxl 2 else m1 in
    if has_s then set_field m2 mstatus_sxl 2 else m2

unfoldable pub set_mstatus : Config → State → ℕ → State
set_mstatus c s val =
    let mask =
      mstatus_mask (supports s letter_s) (supports s letter_f) (supports s letter_v)
        (supports s letter_h) c.has_coprocessor in
    let requested_mpp = legalize_privilege s (get_field val mstatus_mpp) in
    let old = set_field s.mstatus mstatus_mpp requested_mpp in
    record s {
      mstatus =
          derive_mstatus (supports s letter_u) (supports s letter_s) (merge_mstatus mask old val);
    }

-- The bits of `mstatus` that a write of `sstatus` can set.
abbrev pub sstatus_mask : Bool → ℕ
sstatus_mask has_v = or_of (
    mstatus_sie
    ∷ mstatus_spie
    ∷ mstatus_spp
    ∷ mstatus_fs
    ∷ mstatus_xs
    ∷ mstatus_sum
    ∷ mstatus_mxr
    ∷ on has_v mstatus_vs
    ∷ [])

unfoldable pub set_sstatus : Config → State → ℕ → State
set_sstatus c s val =
    let mask = sstatus_mask (supports s letter_v) in
    set_mstatus c s (bit_or (bit_and s.mstatus (not64 mask)) (bit_and val mask))

unfoldable pub set_vstart : Config → State → ℕ → State
set_vstart c s val = record (dirty_vs_state s) { vstart = bit_and val (c.vlen - 1) }

unfoldable pub set_vxsat : State → ℕ → State
set_vxsat s val = record (dirty_vs_state s) { vxsat = bit_and val 0x1 }

unfoldable pub set_vxrm : State → ℕ → State
set_vxrm s val = record (dirty_vs_state s) { vxrm = bit_and val 0x3 }
