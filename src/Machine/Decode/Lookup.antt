-- ===== src/Machine/Decode/Lookup.antt =====
-- The descriptor that an instruction matches, independently of the order of the descriptors: the
-- search of `decode_insn` in riscv/processor.cc.
use processorfuzz.Base.{
  ℕ, ◌≡◌, ◌⊎◌, inl, inr, refl, ap, sym, ◌∙◌, bit_and, Bool, true, false, not, ◌&&◌, ◌==◌, ==_iff,
  Bool-cases, if◌then◌else◌, List, [], ◌∷◌,
}
use processorfuzz.Base.Digits.{bit_and-swap}
use processorfuzz.Machine.Decode.{Insn, Desc, illegal_instruction}
use processorfuzz.Machine.Decode.Search.{matches}
use processorfuzz.Machine.Decode.Table.{instructions}

-- What an instruction means: the function of the descriptor that it matches.
unfoldable pub lookup : List Desc → (bits : ℕ) → Insn
lookup [] bits = illegal_instruction
lookup (d ∷ ds) bits = if matches bits d then d.func else lookup ds bits

abbrev pub Among : Desc → List Desc → Type 0
Among d [] = ⊥
Among d (e ∷ es) = (d ≡ e) ⊎ Among d es

-- Two descriptors that no instruction matches both.
abbrev disjoint : Desc → Desc → Bool
disjoint d e = not (bit_and d.match e.mask == bit_and e.match d.mask)

disjoint_from : Desc → List Desc → Bool
disjoint_from d [] = true
disjoint_from d (e ∷ es) = disjoint d e && disjoint_from d es

pub unambiguous : List Desc → Bool
unambiguous [] = true
unambiguous (d ∷ ds) = disjoint_from d ds && unambiguous ds

pub instructions-unambiguous : unambiguous instructions ≡ true
unfolding unambiguous disjoint_from
instructions-unambiguous = refl

and-parts : (a b : Bool) → (a && b) ≡ true → (a ≡ true) × (b ≡ true)
and-parts true true h = (refl, refl)
and-parts true false h = cc
and-parts false b h = cc

contradicts : (b : Bool) → b ≡ true → not b ≡ true → ⊥
contradicts true p q = cc
contradicts false p q = cc

not_both :
    (bits : ℕ) (d e : Desc)
    → disjoint d e ≡ true
    → matches bits d ≡ true
    → matches bits e ≡ true
    → ⊥
not_both bits d e a md me =
    let first : bit_and bits d.mask ≡ d.match = (==_iff _ _).0 md in
    let second : bit_and bits e.mask ≡ e.match = (==_iff _ _).0 me in
    let both : bit_and d.match e.mask ≡ bit_and e.match d.mask =
      rw (← first, ← second) (bit_and-swap bits d.mask e.mask) in
    let same : (bit_and d.match e.mask == bit_and e.match d.mask) ≡ true = (==_iff _ _).1 both in
    contradicts _ same a

disjoint_from-Among :
    (d e : Desc) (ds : List Desc) → disjoint_from d ds ≡ true → Among e ds → disjoint d e ≡ true
unfolding disjoint_from
disjoint_from-Among d e [] h m = absurd m
disjoint_from-Among d e (f ∷ fs) h (inl p) =
    let (first, others) = and-parts (disjoint d f) (disjoint_from d fs) h in rw p first
disjoint_from-Among d e (f ∷ fs) h (inr m) =
    let (first, others) = and-parts (disjoint d f) (disjoint_from d fs) h in
    disjoint_from-Among d e fs others m

-- Of an unambiguous list only one descriptor matches.
pub one_match :
    (bits : ℕ) (ds : List Desc) (d e : Desc)
    → unambiguous ds ≡ true
    → Among d ds
    → matches bits d ≡ true
    → Among e ds
    → matches bits e ≡ true
    → d ≡ e
unfolding unambiguous
one_match bits [] d e u m md n me = absurd m
one_match bits (f ∷ fs) d e u (inl p) md (inl q) me = p ∙ sym q
one_match bits (f ∷ fs) d e u (inl p) md (inr n) me =
    let (first, others) = and-parts (disjoint_from f fs) (unambiguous fs) u in
    absurd (not_both bits f e (disjoint_from-Among f e fs first n) (rw (← p) md) me)
one_match bits (f ∷ fs) d e u (inr m) md (inl q) me =
    let (first, others) = and-parts (disjoint_from f fs) (unambiguous fs) u in
    absurd (not_both bits f d (disjoint_from-Among f d fs first m) (rw (← q) me) md)
one_match bits (f ∷ fs) d e u (inr m) md (inr n) me =
    let (first, others) = and-parts (disjoint_from f fs) (unambiguous fs) u in
    one_match bits fs d e others m md n me

-- The descriptor that is found, or that none is.
pub data Hit (bits : ℕ) (ds : List Desc) (f : Insn) : Type 0 where
  found : (d : Desc) → Among d ds → matches bits d ≡ true → d.func ≡ f → Hit bits ds f
  missed :
      ((d : Desc) → Among d ds → matches bits d ≡ false) → f ≡ illegal_instruction → Hit bits ds f

found_first :
    (bits : ℕ) (d : Desc) (ds : List Desc) → matches bits d ≡ true → lookup (d ∷ ds) bits ≡ d.func
unfolding lookup
found_first bits d ds m = rw m refl

found_later :
    (bits : ℕ) (d : Desc) (ds : List Desc)
    → matches bits d ≡ false
    → lookup (d ∷ ds) bits ≡ lookup ds bits
unfolding lookup
found_later bits d ds m = rw m refl

pub lookup-Hit : (bits : ℕ) (ds : List Desc) → Hit bits ds (lookup ds bits)
unfolding lookup
lookup-Hit bits [] = missed (λ d m. absurd m) refl
lookup-Hit bits (d ∷ ds) = elim (Bool-cases (matches bits d)) [
  | inl m ↦ found d (inl refl) m (sym (found_first bits d ds m))
  | inr m ↦ later bits d ds m (lookup-Hit bits ds)
]
  where
    later :
        (bits : ℕ) (d : Desc) (ds : List Desc)
        → matches bits d ≡ false
        → Hit bits ds (lookup ds bits)
        → Hit bits (d ∷ ds) (lookup (d ∷ ds) bits)
    later bits d ds m (found e a h f) = found e (inr a) h (f ∙ sym (found_later bits d ds m))
    later bits d ds m (missed h f) =
        missed (λ e a. elim a [ inl p ↦ rw p m | inr n ↦ h e n ]) (found_later bits d ds m ∙ f)

abbrev pub Same : List Desc → List Desc → Type 0
Same ds es = ((d : Desc) → Among d ds → Among d es) × ((d : Desc) → Among d es → Among d ds)

-- Lists with the same members give the same answer, if no instruction matches two of them.
pub Hit-lookup :
    (bits : ℕ) (ds es : List Desc) {f : Insn}
    → unambiguous es ≡ true
    → Same ds es
    → Hit bits ds f
    → f ≡ lookup es bits
Hit-lookup bits ds es {f = f} u same h = go h (lookup-Hit bits es)
  where
    go : Hit bits ds f → Hit bits es (lookup es bits) → f ≡ lookup es bits
    go (found d a m p) (found e b n q) =
        sym p ∙ ap (λ x. x.func) (one_match bits es d e u (same.0 d a) m b n) ∙ q
    go (found d a m p) (missed h q) = absurd (contradicts _ m (rw (h d (same.0 d a)) refl))
    go (missed h p) (found e b n q) = absurd (contradicts _ n (rw (h e (same.1 e b)) refl))
    go (missed h p) (missed k q) = p ∙ sym q
