-- ===== src/Machine/Decode/Refine.antt =====
-- The cache and the moves of `decode_insn` of riscv/processor.cc are invisible.
use processorfuzz.Base.{
  ℕ, ◌%◌, ◌≡◌, ◌⊎◌, inl, inr, refl, ap, sym, ◌∙◌, Bool, true, false, not, ◌&&◌, ◌==◌, ==_iff,
  Bool-cases, if◌then◌else◌, List, [], ◌∷◌, update,
}
use processorfuzz.Machine.Decode.{Insn, Desc}
use processorfuzz.Machine.Decode.Search.{
  Decoder, Found, illegal, matches, search, reverse_onto, reordered, decode_insn, build_opcode_map,
  opcode_cache_size, is_first, match_of,
}
use processorfuzz.Machine.Decode.Lookup.{
  lookup, lookup-Hit, Among, Same, Hit-lookup, instructions-unambiguous,
}
use processorfuzz.Machine.Decode.Sorted.{Same-refl, Same-trans, sort-Same}
use processorfuzz.Machine.Decode.Table.{instructions}

-- The members of a list that is put back.
put_back : (es ds : List Desc) (d : Desc) → Among d (reverse_onto es ds) → Among d es ⊎ Among d ds
put_back [] ds d m = inr m
put_back (e ∷ es) ds d m = elim (put_back es (e ∷ ds) d m) [
  | inl n ↦ inl (inr n)
  | inr (inl p) ↦ inl (inl p)
  | inr (inr n) ↦ inr n
]

kept_behind : (es ds : List Desc) (d : Desc) → Among d ds → Among d (reverse_onto es ds)
kept_behind [] ds d m = m
kept_behind (e ∷ es) ds d m = kept_behind es (e ∷ ds) d (inr m)

kept_before : (es ds : List Desc) (d : Desc) → Among d es → Among d (reverse_onto es ds)
kept_before [] ds d m = absurd m
kept_before (e ∷ es) ds d (inl p) = kept_behind es (e ∷ ds) d (inl p)
kept_before (e ∷ es) ds d (inr m) = kept_before es (e ∷ ds) d m

moved : (es ds : List Desc) (f : Desc) → Same (f ∷ reverse_onto es ds) (reverse_onto es (f ∷ ds))
moved es ds f = (to, from)
  where
    to : (d : Desc) → Among d (f ∷ reverse_onto es ds) → Among d (reverse_onto es (f ∷ ds))
    to d (inl p) = kept_behind es (f ∷ ds) d (inl p)
    to d (inr m) = elim (put_back es ds d m) [
      | inl n ↦ kept_before es (f ∷ ds) d n
      | inr n ↦ kept_behind es (f ∷ ds) d (inr n)
    ]

    from : (d : Desc) → Among d (reverse_onto es (f ∷ ds)) → Among d (f ∷ reverse_onto es ds)
    from d m = elim (put_back es (f ∷ ds) d m) [
      | inl n ↦ inr (kept_before es ds d n)
      | inr (inl p) ↦ inl p
      | inr (inr n) ↦ inr (kept_behind es ds d n)
    ]

-- What the search finds: a descriptor that matches, in its place, or the illegal one.
data IsFound (bits : ℕ) (whole : List Desc) (f : Found) : Type 0 where
  hit :
      matches bits f.desc ≡ true
      → Same (f.desc ∷ reverse_onto f.before f.behind) whole
      → IsFound bits whole f
  none_matches : f.desc ≡ illegal → IsFound bits whole f

search-IsFound :
    (bits : ℕ) (before rest : List Desc)
    → IsFound bits (reverse_onto before rest) (search bits before rest)
unfolding search
search-IsFound bits before [] = none_matches refl
search-IsFound bits before (d ∷ ds) = elim (Bool-cases (matches bits d)) [
  | inl m ↦ rw m (hit m (moved before ds d))
  | inr m ↦ rw m (search-IsFound bits (d ∷ before) ds)
]

search-lookup :
    (bits : ℕ) (before rest : List Desc) → (search bits before rest).desc.func ≡ lookup rest bits
unfolding search lookup
search-lookup bits before [] = refl
search-lookup bits before (d ∷ ds) = elim (Bool-cases (matches bits d)) [
  | inl m ↦ rw m refl
  | inr m ↦ rw m (search-lookup bits (d ∷ before) ds)
]

Same-if :
    (b : Bool) (xs ys zs : List Desc)
    → (b ≡ true → Same xs zs)
    → Same ys zs
    → Same (if b then xs else ys) zs
Same-if true xs ys zs p q = p refl
Same-if false xs ys zs p q = q

true_is_not_false : true ≡ false → ⊥
true_is_not_false p = cc

masked_off :
    (f : Found) (a b c : Bool)
    → f.desc ≡ illegal
    → (not (f.desc.mask == 0) && a && b && c) ≡ true
    → ⊥
masked_off f a b c e h =
    true_is_not_false (sym h ∙ ap (λ m. not (m == 0) && a && b && c) (ap (λ d. d.mask) e))

moves : Found → Bool
moves f =
    not (f.desc.mask == 0)
    && not (is_first f.before)
    && not (f.desc.match == match_of f.before)
    && not (f.desc.match == match_of f.behind)

reordered-Same :
    (bits : ℕ) (ds : List Desc) (f : Found) → IsFound bits ds f → Same (reordered f ds) ds
unfolding reordered moves
reordered-Same bits ds f (hit m same) =
    Same-if (moves f) (f.desc ∷ reverse_onto f.before f.behind) ds ds (λ e. same) (Same-refl ds)
reordered-Same bits ds f (none_matches e) =
    Same-if (moves f) (f.desc ∷ reverse_onto f.before f.behind) ds ds
      (λ b. absurd (
        masked_off f (not (is_first f.before)) (not (f.desc.match == match_of f.before))
          (not (f.desc.match == match_of f.behind)) e b))
      (Same-refl ds)

-- The decoder knows the instructions, in some order, and remembers what they mean.
pub record IsDecoder (t : Decoder) : Type 0 where
  pub same : Same t.instructions instructions
  pub cached : (i : ℕ) → (t.opcode_cache i).func ≡ lookup instructions (t.opcode_cache i).match

-- What a step of the decoder promises.
pub record Decodes (t : Decoder) (bits : ℕ) (r : Insn × Decoder) : Type 0 where
  pub answer : r.0 ≡ lookup instructions bits
  pub kept : IsDecoder r.1

searched :
    (t : Decoder) (bits : ℕ)
    → IsDecoder t
    → (search bits [] t.instructions).desc.func ≡ lookup instructions bits
searched t bits v =
    search-lookup bits [] t.instructions
    ∙ Hit-lookup bits t.instructions instructions instructions-unambiguous v.same
        (lookup-Hit bits t.instructions)

remembered :
    (cache : ℕ → Desc) (idx bits : ℕ) (d : Desc)
    → ((i : ℕ) → (cache i).func ≡ lookup instructions (cache i).match)
    → d.func ≡ lookup instructions bits
    → (i : ℕ)
    → (update cache idx (record d { match = bits }) i).func
      ≡ lookup instructions (update cache idx (record d { match = bits }) i).match
remembered cache idx bits d h e i = elim (Bool-cases (i == idx)) [
  | inl y ↦ rw y e
  | inr y ↦ rw y (h i)
]

pub decode_insn-Decodes :
    (t : Decoder) (bits : ℕ) → IsDecoder t → Decodes t bits (decode_insn t bits)
unfolding decode_insn
decode_insn-Decodes t bits v =
    elim (Bool-cases (bits == (t.opcode_cache (bits % opcode_cache_size)).match)) [
      | inl h ↦ rw h (record {
        answer = v.cached _ ∙ ap (lookup instructions) (sym ((==_iff _ _).0 h));
        kept = v;
      })
      | inr h ↦ rw h (record {
        answer = searched t bits v;
        kept = record {
          same =
              Same-trans (reordered (search bits [] t.instructions) t.instructions) t.instructions
                instructions
                (reordered-Same bits t.instructions (search bits [] t.instructions)
                  (search-IsFound bits [] t.instructions))
                v.same;
          cached =
              remembered t.opcode_cache (bits % opcode_cache_size) bits
                (search bits [] t.instructions).desc v.cached (searched t bits v);
        };
      })
    ]

pub build_opcode_map-IsDecoder : IsDecoder (build_opcode_map instructions)
unfolding build_opcode_map lookup
build_opcode_map-IsDecoder = record { same = sort-Same instructions; cached = λ i. refl }

-- What a decoder answers to instruction after instruction.
unfoldable pub decode_all : Decoder → List ℕ → List Insn
decode_all t [] = []
decode_all t (bits ∷ rest) = let (f, t') = decode_insn t bits in f ∷ decode_all t' rest

unfoldable pub lookup_all : List ℕ → List Insn
lookup_all [] = []
lookup_all (bits ∷ rest) = lookup instructions bits ∷ lookup_all rest

answers : (t : Decoder) (stream : List ℕ) → IsDecoder t → decode_all t stream ≡ lookup_all stream
unfolding decode_all lookup_all
answers t [] v = refl
answers t (bits ∷ rest) v =
    let d = decode_insn-Decodes t bits v in
    rw d.answer
      (ap (λ fs. lookup instructions bits ∷ fs) (answers (decode_insn t bits).1 rest d.kept))

-- The decoder that `build_opcode_map` makes of the table answers every sequence of instructions as
-- the table alone does: neither the cache of the last hits nor the moves of the descriptors to the
-- front, which depend on the instructions before, are visible.
pub decode_all-eq-lookup_all :
    (stream : List ℕ) → decode_all (build_opcode_map instructions) stream ≡ lookup_all stream
decode_all-eq-lookup_all stream =
    answers (build_opcode_map instructions) stream build_opcode_map-IsDecoder
