-- ===== src/Jtag/Scan.antt =====
-- What a scan of the registers of riscv/jtag_dtm.cc puts in and takes out.
use processorfuzz.Base.{
  ℕ, suc, ◌+◌, ◌-◌, ◌*◌, ◌/◌, ◌%◌, ◌^◌, ◌≤◌, ◌<◌, arith, Bool, true, false, List, [], ◌∷◌, length,
  ◌≡◌, refl, ap, zero, sym, ◌∙◌, ◌==◌, of_bool,
}
use native.Mathlib.Nat.{
  pow-suc, mod-eq_of_lt, add-mul-mod_self_left, add-mul-div_left, div-eq_of_lt,
}
use processorfuzz.Base.Bits.{bit_or_comm, bit_or_fields}
use processorfuzz.Jtag.{
  JtagState, capture_dr, shift_dr, exit1_dr, capture_ir, shift_ir, exit1_ir, DebugModule, JtagDtm,
  next_state, shift, shifted_in, enter, positive_edge, clock, ir_length,
}
use processorfuzz.Jtag.Reset.{clock_lem}

-- The number that bits stand for, the lowest first.
abbrev pub value : List Bool → ℕ
value [] = 0
value (bit ∷ bits) = of_bool bit + 2 * value bits

-- The bits that leave a register while others enter, and what it holds then.
abbrev pass : (size : ℕ) → List Bool → ℕ → List Bool × ℕ
pass size [] register = ([], register)
pass size (bit ∷ bits) register =
    let rest = pass size bits (shifted_in size bit register) in
    ((register % 2 == 1) ∷ rest.0, rest.1)

low_bit_lem : (x : ℕ) → of_bool (x % 2 == 1) ≡ x % 2
low_bit_lem x = ground arith

value-pass_lt :
    (size : ℕ) (bits : List Bool) (register : ℕ)
    → value (pass size bits register).0 < 2 ^ length bits
value-pass_lt size [] register = omega arith
value-pass_lt size (bit ∷ bits) register =
    let ih = value-pass_lt size bits (shifted_in size bit register) in
    omega (arith, low_bit_lem register, pow-suc 2 (length bits), ih)

shifted_in_lem :
    (n : ℕ) (bit : Bool) (register : ℕ)
    → register < 2 ^ suc n
    → shifted_in (suc n) bit register ≡ of_bool bit * 2 ^ n + register / 2
unfolding shifted_in
shifted_in_lem n bit register h =
    let small : register / 2 < 2 ^ n = omega (arith, h, pow-suc 2 n) in
    let count : suc n - 1 ≡ n = omega arith in
    rw count (
      bit_or_comm (register / 2) (of_bool bit * 2 ^ n)
      ∙ bit_or_fields n (of_bool bit) (register / 2) small)

shifted_in_lt :
    (n : ℕ) (bit : Bool) (register : ℕ)
    → register < 2 ^ suc n
    → shifted_in (suc n) bit register < 2 ^ suc n
shifted_in_lt n true register h =
    rw (shifted_in_lem n true register h) (omega (arith, h, pow-suc 2 n))
shifted_in_lt n false register h =
    rw (shifted_in_lem n false register h) (omega (arith, h, pow-suc 2 n))

conserved :
    (p l x s v o d b : ℕ)
    → s ≡ b * p + x / 2
    → s + p * 2 * v ≡ o + l * d
    → x + p * 2 * (b + 2 * v) ≡ x % 2 + 2 * o + l * 2 * d
conserved p l x s v o d b e h = grind arith

-- No bit is lost: the ones that enter and the register together are the ones that leave and the
-- register after.
pass-value :
    (n : ℕ) (bits : List Bool) (register : ℕ)
    → register < 2 ^ suc n
    → register + 2 ^ suc n * value bits
      ≡ value (pass (suc n) bits register).0 + 2 ^ length bits * (pass (suc n) bits register).1
pass-value n [] register h = omega arith
pass-value n (bit ∷ bits) register h =
    let ih = pass-value n bits (shifted_in (suc n) bit register) (shifted_in_lt n bit register h) in
    let enters = pow-suc 2 n in
    let leaves = pow-suc 2 (length bits) in
    let after = pass (suc n) bits (shifted_in (suc n) bit register) in
    rw (low_bit_lem register, enters, leaves)
      (conserved (2 ^ n) (2 ^ length bits) register (shifted_in (suc n) bit register) (value bits)
        (value after.0) after.1 (of_bool bit) (shifted_in_lem n bit register h)
        (rw (sym enters) ih))

-- A whole scan takes out what was in and leaves what came.
exchanged : (p x y o v : ℕ) → x < p → o < p → x + p * v ≡ o + p * y → (o ≡ x) × (y ≡ v)
exchanged p x y o v a b h =
    let pos : zero < p = omega (arith, a) in
    let low =
      sym (mod-eq_of_lt b)
      ∙ sym (add-mul-mod_self_left o p y)
      ∙ ap (λ t. t % p) (sym h)
      ∙ add-mul-mod_self_left x p v
      ∙ mod-eq_of_lt a in
    let before : (x + p * v) / p ≡ x / p + v = add-mul-div_left x v pos in
    let after : (o + p * y) / p ≡ o / p + y = add-mul-div_left o y pos in
    let high = ap (λ t. t / p) h in
    (low, omega (arith, before, after, high, div-eq_of_lt a, div-eq_of_lt b))

-- The registers that the TAP controller scans.
pub data Register : Type 0 where
  instruction_register data_register : Register

abbrev pub capturing : Register → JtagState
capturing instruction_register = capture_ir
capturing data_register = capture_dr

abbrev pub shifting : Register → JtagState
shifting instruction_register = shift_ir
shifting data_register = shift_dr

abbrev pub exiting : Register → JtagState
exiting instruction_register = exit1_ir
exiting data_register = exit1_dr

module _ {Dm : Type 0} where
  abbrev pub register : Register → JtagDtm Dm → ℕ
  register instruction_register j = j.ir
  register data_register j = j.dr

  abbrev pub size : Register → JtagDtm Dm → ℕ
  size instruction_register j = ir_length
  size data_register j = j.dr_length

  -- The register is being shifted, and the pin shows its lowest bit.
  record IsShifting (w : Register) (n x : ℕ) (j : JtagDtm Dm) : Type 0 where
    shifts : j.state ≡ shifting w
    sized : size w j ≡ n
    holds : register w j ≡ x
    shows : j.tdo ≡ (x % 2 == 1)

  -- The scan is over.
  pub record HasLeft (w : Register) (x : ℕ) (j : JtagDtm Dm) : Type 0 where
    pub leaves : j.state ≡ exiting w
    pub left : register w j ≡ x

  module _ (m : DebugModule Dm) where
    captured-IsShifting :
        (w : Register) (tdi : Bool) (j : JtagDtm Dm)
        → j.state ≡ capturing w
        → IsShifting w (size w j) (register w j) (clock m false tdi j)
    unfolding positive_edge shift next_state enter
    captured-IsShifting instruction_register tdi j h =
        rw (clock_lem m false tdi j, h)
          (record { shifts = refl; sized = refl; holds = refl; shows = refl })
    captured-IsShifting data_register tdi j h =
        rw (clock_lem m false tdi j, h)
          (record { shifts = refl; sized = refl; holds = refl; shows = refl })

    shifted-IsShifting :
        (w : Register) (n x : ℕ) (bit : Bool) (j : JtagDtm Dm)
        → IsShifting w n x j
        → IsShifting w n (shifted_in n bit x) (clock m false bit j)
    unfolding positive_edge shift next_state enter
    shifted-IsShifting instruction_register n x bit j h =
        rw (sym h.sized, sym h.holds, clock_lem m false bit j, h.shifts)
          (record { shifts = refl; sized = refl; holds = refl; shows = refl })
    shifted-IsShifting data_register n x bit j h =
        rw (sym h.sized, sym h.holds, clock_lem m false bit j, h.shifts)
          (record { shifts = refl; sized = refl; holds = refl; shows = refl })

    shifted-HasLeft :
        (w : Register) (n x : ℕ) (bit : Bool) (j : JtagDtm Dm)
        → IsShifting w n x j
        → HasLeft w (shifted_in n bit x) (clock m true bit j)
    unfolding positive_edge shift next_state enter
    shifted-HasLeft instruction_register n x bit j h =
        rw (sym h.sized, sym h.holds, clock_lem m true bit j, h.shifts)
          (record { leaves = refl; left = refl })
    shifted-HasLeft data_register n x bit j h =
        rw (sym h.sized, sym h.holds, clock_lem m true bit j, h.shifts)
          (record { leaves = refl; left = refl })

    -- A cycle for each bit, TMS high with the last, and what TDO shows before each.
    unfoldable pub scan_bits : (first : Bool) → List Bool → JtagDtm Dm → List Bool × JtagDtm Dm
    scan_bits first [] j = (j.tdo ∷ [], clock m true first j)
    scan_bits first (bit ∷ bits) j =
        let rest = scan_bits bit bits (clock m false first j) in (j.tdo ∷ rest.0, rest.1)

    scan-pass :
        (w : Register) (n x : ℕ) (first : Bool) (bits : List Bool) (j : JtagDtm Dm)
        → IsShifting w n x j
        → ((scan_bits first bits j).0 ≡ (pass n (first ∷ bits) x).0)
          × HasLeft w (pass n (first ∷ bits) x).1 (scan_bits first bits j).1
    unfolding scan_bits
    scan-pass w n x first [] j h = (rw h.shows refl, shifted-HasLeft w n x first j h)
    scan-pass w n x first (bit ∷ bits) j h =
        let rest =
          scan-pass w n (shifted_in n first x) bit bits (clock m false first j)
            (shifted-IsShifting w n x first j h) in
        (rw (rest.0, h.shows) refl, rest.1)

    -- A scan from Capture with as many bits as the register has, TMS high with the last one, shows on
    -- TDO what the register held, lowest bit first, and leaves the bits of TDI in it.
    pub scan-exchanges :
        (w : Register) (tdi first : Bool) (bits : List Bool) (j : JtagDtm Dm)
        → j.state ≡ capturing w
        → size w j ≤ 64
        → register w j < 2 ^ size w j
        → length (first ∷ bits) ≡ size w j
        → (let scanned = scan_bits first bits (clock m false tdi j) in
            (value scanned.0 ≡ register w j) × HasLeft w (value (first ∷ bits)) scanned.1)
    scan-exchanges w tdi first bits j at width small whole =
        let x = register w j in
        let n = suc (length bits) in
        let bound : x < 2 ^ n = rw whole small in
        let passed =
          scan-pass w n x first bits (clock m false tdi j)
            (rw whole (captured-IsShifting w tdi j at)) in
        let out = pass n (first ∷ bits) x in
        let swapped =
          exchanged (2 ^ n) x out.1 (value out.0) (value (first ∷ bits)) bound
            (value-pass_lt n (first ∷ bits) x) (pass-value (length bits) (first ∷ bits) x bound) in
        (rw passed.0 swapped.0, rw (sym swapped.1) passed.1)
