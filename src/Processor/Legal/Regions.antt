-- ===== src/Processor/Legal/Regions.antt =====
-- Writes keep the PMP entries legal.
use processorfuzz.Base.{ℕ, zero, suc, ◌+◌, ◌-◌, ◌*◌, ◌/◌, ◌%◌, ◌^◌, ◌<◌, ◌≡◌, refl, arith}
use processorfuzz.Base.{
  Bool, true, false, not, ◌&&◌, ◌||◌, ◌==◌, ltb, if◌then◌else◌, Bool-cases, inl, inr, update,
}
use processorfuzz.Base.Digits.{test, bit_and-le}
use processorfuzz.Base.Bits.{all_below, all_below_sound}
use processorfuzz.Processor.Number.{
  Csr, csr_vstval, csr_mtval2, csr_mtinst, csr_htimedelta, csr_htimedeltah, csr_pmpcfg, csr_pmpaddr,
}
use processorfuzz.Processor.State.{
  State, Config, ok, threw, Ensures, Ensures-if, supports, letter_h,
}
use processorfuzz.Processor.Registers.{illegal_instruction}
use processorfuzz.Processor.Write.{write_csr}
use processorfuzz.Processor.Legal.{PmpLegal}
use processorfuzz.Processor.Debug.{set_pmpcfgs, legal_byte, legal_pmpcfg, is_locked}

-- Bit 1, W, only where bit 0, R, is set.
abbrev NeedsRead : ℕ → Type 0
NeedsRead cfg = test 1 cfg ≡ 1 → test 0 cfg ≡ 1

needs_read_test : Bool → ℕ → Bool
needs_read_test coarse byte =
    not (test 1 (legal_byte coarse byte) == 1) || test 0 (legal_byte coarse byte) == 1

needs_read_table : (coarse : Bool) → all_below 256 (needs_read_test coarse) ≡ true
unfolding all_below needs_read_test legal_byte
needs_read_table true = refl
needs_read_table false = refl

legal_byte-NeedsRead : (coarse : Bool) (byte : ℕ) → byte < 256 → NeedsRead (legal_byte coarse byte)
unfolding needs_read_test
legal_byte-NeedsRead coarse byte h w =
    ground (arith, all_below_sound 256 (needs_read_test coarse) byte (needs_read_table coarse) h, w)

stored-NeedsRead :
    (b : Bool) (cfgs : ℕ → ℕ) (i v j : ℕ)
    → NeedsRead v
    → NeedsRead (cfgs j)
    → NeedsRead ((if b then update cfgs i v else cfgs) j)
stored-NeedsRead false cfgs i v j p q = q
stored-NeedsRead true cfgs i v j p q = elim (Bool-cases (j == i)) [
  | inl e ↦ rw e p
  | inr e ↦ rw e q
]

set_pmpcfgs-legal :
    (c : Config) (left i val : ℕ) (cfgs : ℕ → ℕ)
    → ((j : ℕ) → NeedsRead (cfgs j))
    → (j : ℕ) → NeedsRead (set_pmpcfgs c left i val cfgs j)
unfolding set_pmpcfgs
set_pmpcfgs-legal c zero i val cfgs h j = h j
set_pmpcfgs-legal c (suc left) i val cfgs h j =
    set_pmpcfgs-legal c left (i + 1) (val / 2 ^ 8) _
      (λ k.
        stored-NeedsRead (ltb i c.n_pmp && not (is_locked (cfgs i))) cfgs i
          (legal_pmpcfg c (val % 2 ^ 8)) k (legal_byte-NeedsRead _ (val % 2 ^ 8) (omega arith))
          (h k))
      j

pmpcfg_kept :
    (n : ℕ) (new old : ℕ → ℕ) (j : ℕ)
    → NeedsRead (new j)
    → NeedsRead (old j)
    → NeedsRead ((if n == 0 then old else new) j)
pmpcfg_kept n new old j p q = elim (Bool-cases (n == 0)) [ inl e ↦ rw e q | inr e ↦ rw e p ]

stored :
    (b : Bool) (addrs : ℕ → ℕ) (i v j : ℕ)
    → v < 2 ^ 30
    → addrs j < 2 ^ 30
    → (if b then update addrs i v else addrs) j < 2 ^ 30
stored false addrs i v j p q = q
stored true addrs i v j p q = elim (Bool-cases (j == i)) [ inl e ↦ rw e p | inr e ↦ rw e q ]

module _ (c : Config) (s : State) (v : PmpLegal s) where
  kept-if :
      (b : Bool) (s' : State)
      → PmpLegal s'
      → Ensures PmpLegal (if b then ok s' else threw (illegal_instruction 0))
  kept-if b s' k = Ensures-if PmpLegal b s' (illegal_instruction 0) k

  pub write_csr-PmpLegal : (r : Csr) (val : ℕ) → Ensures PmpLegal (write_csr c s r val)
  unfolding write_csr
  write_csr-PmpLegal (csr_pmpcfg i) val = record {
    write_needs_read = λ j.
        pmpcfg_kept c.n_pmp (set_pmpcfgs c 8 (i * 4) val s.pmpcfg) s.pmpcfg j
          (set_pmpcfgs-legal c 8 (i * 4) val s.pmpcfg v.write_needs_read j) (v.write_needs_read j);
    in_memory = v.in_memory;
  }
  write_csr-PmpLegal (csr_pmpaddr i) val = record {
    write_needs_read = v.write_needs_read;
    in_memory =
        λ j. stored _ s.pmpaddr i _ j (omega (arith, bit_and-le val (2 ^ 30 - 1))) (v.in_memory j);
  }
  write_csr-PmpLegal csr_mtval2 val = kept-if (supports s letter_h) _ v
  write_csr-PmpLegal csr_mtinst val = kept-if (supports s letter_h) _ v
  write_csr-PmpLegal csr_htimedelta val = tt
  write_csr-PmpLegal csr_htimedeltah val = tt
  write_csr-PmpLegal csr_vstval val = v
  write_csr-PmpLegal _ val = v
