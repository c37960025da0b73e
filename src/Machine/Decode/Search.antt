-- ===== src/Machine/Decode/Search.antt =====
-- `decode_insn` of riscv/processor.cc: a linear search of the descriptors, which moves a hit to the
-- front, behind a cache of the last hits. The last descriptor, which `register_base_instructions`
-- adds, has mask and match zero: it takes every instruction, is illegal, and stays where it is.
use processorfuzz.Base.{
  ℕ, ◌%◌, bit_and, Bool, true, false, not, ◌&&◌, ◌==◌, ltb, if◌then◌else◌, List, [], ◌∷◌, update,
}
use processorfuzz.Machine.Decode.{Insn, Desc, illegal_instruction}

abbrev pub opcode_cache_size : ℕ
opcode_cache_size = 8191

-- The list of descriptors without the last, and the cache.
pub record Decoder : Type 0 where
  pub instructions : List Desc
  pub opcode_cache : ℕ → Desc

abbrev pub illegal : Desc
illegal = record { match = 0; mask = 0; func = illegal_instruction }

abbrev pub matches : ℕ → Desc → Bool
matches bits d = bit_and bits d.mask == d.match

-- The hit of the search, with the descriptors before it, the last of them first, and those behind it.
pub record Found : Type 0 where
  pub before : List Desc
  pub desc : Desc
  pub behind : List Desc

unfoldable pub search : ℕ → (before rest : List Desc) → Found
search bits before [] = record { before = before; desc = illegal; behind = [] }
search bits before (d ∷ ds) =
    let further = search bits (d ∷ before) ds in
    if matches bits d then record { before = before; desc = d; behind = ds } else further

-- `match` of a neighbour; behind the last of the list stands the illegal one.
abbrev pub match_of : List Desc → ℕ
match_of [] = 0
match_of (d ∷ ds) = d.match

abbrev pub reverse_onto : List Desc → List Desc → List Desc
reverse_onto [] ds = ds
reverse_onto (e ∷ es) ds = reverse_onto es (e ∷ ds)

abbrev pub is_first : List Desc → Bool
is_first [] = true
is_first (d ∷ ds) = false

-- The list after a search, moved where the hit is not the illegal one nor the first, and is no alias
-- of a neighbour.
unfoldable pub reordered : Found → List Desc → List Desc
reordered f old =
    if not (f.desc.mask == 0)
      && not (is_first f.before)
      && not (f.desc.match == match_of f.before)
      && not (f.desc.match == match_of f.behind)
    then f.desc ∷ reverse_onto f.before f.behind
    else old

unfoldable pub decode_insn : Decoder → (bits : ℕ) → Insn × Decoder
decode_insn t bits =
    let idx = bits % opcode_cache_size in
    let cached = t.opcode_cache idx in
    if bits == cached.match
    then (cached.func, t)
    else let f = search bits [] t.instructions in
      (
        f.desc.func,
        record {
          instructions = reordered f t.instructions;
          opcode_cache = update t.opcode_cache idx (record f.desc { match = bits });
        },
      )

-- `build_opcode_map`: the descriptors by falling `match`, then by falling `mask`, and an empty cache.
abbrev pub comes_first : Desc → Desc → Bool
comes_first d e = if d.match == e.match then ltb e.mask d.mask else ltb e.match d.match

unfoldable pub insert : Desc → List Desc → List Desc
insert d [] = d ∷ []
insert d (e ∷ es) = let rest = insert d es in if comes_first d e then d ∷ e ∷ es else e ∷ rest

unfoldable pub sort : List Desc → List Desc
sort [] = []
sort (d ∷ ds) = insert d (sort ds)

unfoldable pub build_opcode_map : List Desc → Decoder
build_opcode_map instructions = record {
  instructions = sort instructions;
  opcode_cache = λ i. illegal;
}
