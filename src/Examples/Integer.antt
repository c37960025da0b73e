-- ===== src/Examples/Integer.antt =====
-- arith.h at concrete words.
use processorfuzz.Base.{ℕ, ◌-◌, ◌+◌, ◌*◌, ◌/◌, ◌%◌, ◌^◌, ◌≡◌, refl, arith, true, false, bit_and}
use processorfuzz.Base.{some, none}
use processorfuzz.Integer.{mulhu, mulh, mulhsu, sat_addu, sat_subu, sat_add, sat_sub}
use processorfuzz.Integer.{extract64, make_mask64}
use processorfuzz.Integer.Multiply.{mulhu-mulhsu-mulh, sext128}
use processorfuzz.Integer.Signed.{sat_add-sat_sub, as_offset, clamp, offset}
use processorfuzz.Integer.Fields.{extract64-make_mask64}

-- -3 and a large word.
abbrev minus_three : ℕ
minus_three = 0xffff_ffff_ffff_fffd

abbrev big : ℕ
big = 0x8000_0000_0000_0005

mulhu-mulhsu-mulh_example :
    (mulhu minus_three big ≡ minus_three * big / 2 ^ 64)
    × (mulhsu minus_three big ≡ sext128 minus_three * big % 2 ^ 128 / 2 ^ 64)
    × (mulh minus_three big ≡ sext128 minus_three * sext128 big % 2 ^ 128 / 2 ^ 64)
mulhu-mulhsu-mulh_example = mulhu-mulhsu-mulh minus_three big (omega arith) (omega arith)

sat_add-sat_sub_example :
    (as_offset 7 (sat_add 7 100 50) ≡ clamp 7 (offset 7 100 + offset 7 50))
    × (as_offset 7 (sat_sub 7 100 50) ≡ clamp 7 (offset 7 100 + 2 ^ (7 + 1) - offset 7 50))
sat_add-sat_sub_example = sat_add-sat_sub 7 100 50 (omega arith) (omega arith)

extract64-make_mask64_example :
    (f m : ℕ) × (extract64 0x1234_5678 12 9 ≡ some f)
    × (make_mask64 12 9 ≡ some m)
    × (f ≡ 0x1234_5678 / 2 ^ 12 % 2 ^ 9)
    × (bit_and 0x1234_5678 m ≡ f * 2 ^ 12)
extract64-make_mask64_example = extract64-make_mask64 0x1234_5678 12 9 (omega arith) (omega arith)

-- The runs themselves.
integer_runs :
    (mulhu minus_three big ≡ 0x8000_0000_0000_0003)
    × (mulh minus_three 7 ≡ 0xffff_ffff_ffff_ffff)
    × (mulhsu minus_three 0 ≡ 0)
    × (sat_addu 8 200 100 ≡ (255, true))
    × (sat_subu 8 100 200 ≡ (0, true))
    × (sat_add 7 100 50 ≡ (127, true))
    × (sat_sub 7 156 100 ≡ (128, true))
    × (sat_sub 7 5 7 ≡ (254, false))
    × (extract64 0x1234_5678 12 65 ≡ none)
unfolding mulhu mulh mulhsu sat_addu sat_subu sat_add sat_sub extract64
integer_runs = (refl, refl, refl, refl, refl, refl, refl, refl, refl)
