-- ===== src/Processor/Access.antt =====
-- The CSR instructions: `validate_csr` of riscv/decode.h, riscv/insns/csrrw.h, csrrs.h and csrrc.h.
use processorfuzz.Base.Digits.{bit_and_pair}
use processorfuzz.Base.{
  ◌/◌, ◌%◌, ◌*◌, ◌^◌, ◌<◌, ◌⊎◌, inl, inr, arith, bit_and, lt→ltb, ℕ, ◌≡◌, refl, ap, sym, ◌∙◌, Bool,
  true, false, not, ◌&&◌, ◌||◌, ◌==◌, ltb, if◌then◌else◌,
}
use processorfuzz.Processor.State.{
  get_field, State, Config, Trap, Outcome, ok, threw, aborted, supports, letter_s, letter_h, prv_s,
  prv_hs,
}
use processorfuzz.Processor.Registers.{illegal_instruction}
use processorfuzz.Processor.Views.{virtual_instruction}
use processorfuzz.Processor.Write.{set_csr}
use processorfuzz.Processor.Read.{get_csr}
use processorfuzz.Processor.Privileged.{
  ◌>>=◌, ◌>>◌, csr_priv, csr_read_only, state_prv, validate_csr, access_csr, csrrs,
}

abbrev refuse : (absent denied guest : Bool) (t u : Trap) → Outcome (Unit {0})
refuse absent denied guest t u =
    if absent then threw t else if denied then if guest then threw u else threw t else ok tt

-- An illegal instruction, or one that a guest may not run.
pub record IsRefusal (bits : ℕ) (t : Trap) : Type 0 where
  pub cause : (t.cause ≡ 2) ⊎ (t.cause ≡ 22)
  pub tval : t.tval ≡ bits

refused :
    (a b h : Bool) (bits : ℕ)
    → b ≡ true
    → (x : Trap) × (refuse a b h (illegal_instruction bits) (virtual_instruction bits) ≡ threw x)
      × IsRefusal bits x
refused true b h bits e = (illegal_instruction bits, refl, record { cause = inl refl; tval = refl })
refused false true true bits e =
    (virtual_instruction bits, refl, record { cause = inr refl; tval = refl })
refused false true false bits e =
    (illegal_instruction bits, refl, record { cause = inl refl; tval = refl })
refused false false h bits e = cc

-- The fields of the number of a CSR, as the privileged specification numbers them: the level is in
-- bits 8 and 9, and both of bits 10 and 11 are set where it is read-only.
csr_priv_lem : (which : ℕ) → csr_priv which ≡ which / 2 ^ 8 % 4
unfolding get_field
csr_priv_lem which =
    let e : bit_and which 0x300 ≡ which / 2 ^ 8 % 4 * 2 ^ 8 = bit_and_pair 8 which in
    rw e (omega arith)

csr_read_only_lem : (which : ℕ) → csr_read_only which ≡ (which / 2 ^ 10 % 4 == 3)
unfolding get_field
csr_read_only_lem which =
    let e : bit_and which 0xc00 ≡ which / 2 ^ 10 % 4 * 2 ^ 10 = bit_and_pair 10 which in
    rw e (ap (λ x. x == 3) (omega arith))

-- The level of the hart in the numbers of CSRs, in which a supervisor that is no guest has 2.
abbrev pub level : State → ℕ
level s = if s.prv == 1 then if s.v then 1 else 2 else s.prv

level_lem : (s : State) → state_prv s ≡ level s
level_lem s = ground arith

or_true : (b : Bool) → (b || true) ≡ true
or_true b = ground arith

module _ (c : Config) (s : State) (bits which : ℕ) (write : Bool) (new : ℕ → ℕ) where
  is_denied :
      (level s < which / 2 ^ 8 % 4) ⊎ ((write ≡ true) × (which / 2 ^ 10 % 4 ≡ 3))
      → ((write && csr_read_only which) || ltb (state_prv s) (csr_priv which)) ≡ true
  is_denied (inl h) =
      rw (csr_priv_lem which, level_lem s, lt→ltb _ _ h) (or_true (write && csr_read_only which))
  is_denied (inr (w, h)) = rw (w, csr_read_only_lem which, h) refl

  -- An instruction on a CSR whose number asks for a higher level than the hart's, or one that writes a
  -- CSR whose number says that it is read-only, throws, with the instruction's bits, before it reads or
  -- writes anything: the trap is an illegal instruction, or one that a guest may not run.
  pub access_csr-denied :
      (level s < which / 2 ^ 8 % 4) ⊎ ((write ≡ true) × (which / 2 ^ 10 % 4 ≡ 3))
      → (t : Trap) × (access_csr c s bits which write new ≡ threw t) × IsRefusal bits t
  unfolding access_csr validate_csr
  access_csr-denied h =
      let (t, e, r) =
        refused
          ((csr_priv which == prv_s && not (supports s letter_s))
            || (csr_priv which == prv_hs && not (supports s letter_h)))
          ((write && csr_read_only which) || ltb (state_prv s) (csr_priv which))
          (csr_priv which == prv_hs) bits (is_denied h) in
      (
        t,
        ap
            (λ v.
              v
              >> (get_csr c s which bits >>= λ old.
                  (if write then set_csr c s which (new old) else ok s) >>= λ s'. ok (old, s')))
            e,
        r,
      )

-- A chain that returns has a first call that returned.
returned_first :
    {A B : Type 0} {b : B} (f : A → Outcome B) (m : Outcome A)
    → ok b ≡ (m >>= f)
    → (a : A) × (ok b ≡ f a) × (m ≡ ok a)
returned_first f aborted h = cc
returned_first f (threw t) h = cc
returned_first f (ok a) h = (a, h, refl)

module _ (c : Config) (s : State) (bits which rs1 : ℕ) {old : ℕ} {s' : State} where
  -- `csrrs` and `csrrc` with register zero only read: if they return, the state is what it was, and
  -- the value is the one that `get_csr` gives.
  pub csrrs-reads :
      csrrs c s bits which 0 rs1 ≡ ok (old, s') → (s' ≡ s) × (get_csr c s which bits ≡ ok old)
  unfolding csrrs access_csr
  csrrs-reads h =
      let (u, k, valid) = returned_first _ (validate_csr s bits which false) (sym h) in
      let (v, e, read) = returned_first (λ x. ok (x, s)) (get_csr c s which bits) k in
      let returned : ℕ × State = (v, s) in
      let result : ℕ × State = (old, s') in
      let pair : returned ≡ result = cc in
      (sym (ap (λ p. p.1) pair), read ∙ ap ok (ap (λ p. p.0) pair))
