-- ===== src/Machine/Sound/Next.antt =====
-- What the instructions of riscv/insns do to the program counter, the registers and the CSRs keeps
-- the machine sound.
use processorfuzz.Base.{
  ℕ, ◌+◌, ◌%◌, ◌^◌, ◌≡◌, arith, Bool-cases, inl, inr, Bool, true, false, ◌==◌, if◌then◌else◌,
  update, bit_and,
}
use processorfuzz.Base.Digits.{test, test-bit_and, test-zero}
use processorfuzz.Processor.State.{State, Config, Outcome, ok, threw, aborted, Ensures, not64}
use processorfuzz.Processor.Views.{pc_alignment_mask}
use processorfuzz.Processor.Write.{set_csr}
use processorfuzz.Processor.Read.{get_csr}
use processorfuzz.Processor.Privileged.{◌>>=◌, validate_csr, access_csr}
use processorfuzz.Processor.Legal.{IsLegal}
use processorfuzz.Processor.Legal.Writes.{set_csr-IsLegal}
use processorfuzz.Processor.Legal.Steps.{bit_and-even, at_pc}
use processorfuzz.Machine.Hart.{Machine, write_reg}
use processorfuzz.Machine.Decode.{sb_imm, uj_imm}
use processorfuzz.Machine.Execute.{Next, at, serialize_before, serialize_after, waits}
use processorfuzz.Machine.Sound.{IsSound, Any, Ensures-Any}
use processorfuzz.Machine.Sound.Words.{IsWord}

abbrev pub IsEven : ℕ → Type 0
IsEven pc = test 0 pc ≡ 0

-- The next program counter is even; where it stands in the hart, legality says so.
abbrev pub IsNext : Next → Type 0
IsNext (at npc) = IsEven npc
IsNext serialize_before = Unit
IsNext serialize_after = Unit
IsNext waits = Unit

pub next-IsEven : (pc : ℕ) → IsEven pc → IsEven ((pc + 4) % 2 ^ 64)
next-IsEven pc h = omega (arith, test-zero pc, test-zero ((pc + 4) % 2 ^ 64))

pub branch-IsEven : (pc bits : ℕ) → IsEven pc → IsEven ((pc + sb_imm bits) % 2 ^ 64)
unfolding sb_imm
branch-IsEven pc bits h = omega (arith, test-zero pc, test-zero ((pc + sb_imm bits) % 2 ^ 64))

pub jump-IsEven : (pc bits : ℕ) → IsEven pc → IsEven ((pc + uj_imm bits) % 2 ^ 64)
unfolding uj_imm
jump-IsEven pc bits h = omega (arith, test-zero pc, test-zero ((pc + uj_imm bits) % 2 ^ 64))

pub cleared-IsEven : (x : ℕ) → IsEven (bit_and x (not64 1))
cleared-IsEven x = omega (arith, test-bit_and 0 x (not64 1))

register-IsWord : (f : ℕ → ℕ) (reg v i : ℕ) → IsWord v → IsWord (f i) → IsWord (update f reg v i)
register-IsWord f reg v i p q = ground arith

not_zero_reg : (f : ℕ → ℕ) (reg v : ℕ) → (reg == 0) ≡ false → f 0 ≡ 0 → update f reg v 0 ≡ 0
not_zero_reg f reg v n h = ground arith

pub write_reg-IsSound :
    {Io : Type 0} (reg value : ℕ) (m : Machine Io)
    → IsWord value
    → IsSound m
    → IsSound (write_reg reg value m)
unfolding write_reg
write_reg-IsSound reg value m w v = elim (Bool-cases (reg == 0)) [
  | inl y ↦ rw y v
  | inr n ↦ rw n (record {
    legal = v.legal;
    zero_reg = not_zero_reg m.xpr reg value n v.zero_reg;
    words = λ i. register-IsWord m.xpr reg value i w (v.words i);
    bytes = v.bytes;
    decodes = v.decodes;
  })
]

pub legal_at :
    (s : State) (npc : ℕ)
    → IsEven npc
    → IsLegal s
    → IsLegal (record s { pc = bit_and npc (pc_alignment_mask s) })
legal_at s npc e v = at_pc s _ (bit_and-even npc (pc_alignment_mask s) e) v

Ensures-then :
    {A B : Type 0} (P : A → Type 0) (Q : B → Type 0) (o : Outcome A) (k : A → Outcome B)
    → Ensures P o
    → ((a : A) → P a → Ensures Q (k a))
    → Ensures Q (o >>= k)
Ensures-then P Q (ok a) k p h = h a p
Ensures-then P Q (threw t) k p h = tt
Ensures-then P Q aborted k p h = tt

abbrev pub IsRead : ℕ × State → Type 0
IsRead r = IsLegal r.1

written :
    (c : Config) (s : State) (which new : ℕ) (b : Bool)
    → IsLegal s
    → Ensures IsLegal (if b then set_csr c s which new else ok s)
written c s which new true v = set_csr-IsLegal c s v which new
written c s which new false v = v

pub access_csr-IsLegal :
    (c : Config) (s : State) (bits which : ℕ) (write : Bool) (new : ℕ → ℕ)
    → IsLegal s
    → Ensures IsRead (access_csr c s bits which write new)
unfolding access_csr
access_csr-IsLegal c s bits which write new v =
    Ensures-then Any IsRead (validate_csr s bits which write) _ (Ensures-Any _) (λ u p.
      Ensures-then Any IsRead (get_csr c s which bits) _ (Ensures-Any _) (λ old q.
        Ensures-then IsLegal IsRead _ (λ s'. ok (old, s')) (written c s which (new old) write v)
          (λ s' w. w)))
