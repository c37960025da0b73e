-- ===== src/Machine/Decode/Sorted.antt =====
-- The sort of `build_opcode_map` of riscv/processor.cc keeps the descriptors.
use processorfuzz.Base.{◌⊎◌, inl, inr, Bool, true, false, if◌then◌else◌, List, [], ◌∷◌}
use processorfuzz.Machine.Decode.{Desc}
use processorfuzz.Machine.Decode.Search.{insert, sort, comes_first}
use processorfuzz.Machine.Decode.Lookup.{Among, Same}

pub Same-refl : (ds : List Desc) → Same ds ds
Same-refl ds = (λ d m. m, λ d m. m)

pub Same-trans : (ds es fs : List Desc) → Same ds es → Same es fs → Same ds fs
Same-trans ds es fs p q = (λ d m. q.0 d (p.0 d m), λ d m. p.1 d (q.1 d m))

member-if :
    (b : Bool) (d : Desc) (xs ys : List Desc)
    → Among d xs
    → Among d ys
    → Among d (if b then xs else ys)
member-if true d xs ys p q = p
member-if false d xs ys p q = q

member-of :
    (b : Bool) (d : Desc) (xs ys : List Desc)
    → Among d (if b then xs else ys)
    → Among d xs ⊎ Among d ys
member-of true d xs ys p = inl p
member-of false d xs ys p = inr p

inserted : (x d : Desc) (es : List Desc) → Among x (d ∷ es) → Among x (insert d es)
unfolding insert
inserted x d [] m = m
inserted x d (e ∷ es) m =
    member-if (comes_first d e) x (d ∷ e ∷ es) (e ∷ insert d es) m (later (inserted x d es) m)
  where
    later :
        (Among x (d ∷ es) → Among x (insert d es))
        → Among x (d ∷ e ∷ es)
        → Among x (e ∷ insert d es)
    later h (inl p) = inr (h (inl p))
    later h (inr (inl p)) = inl p
    later h (inr (inr n)) = inr (h (inr n))

from_insert : (x d : Desc) (es : List Desc) → Among x (insert d es) → Among x (d ∷ es)
unfolding insert
from_insert x d [] m = m
from_insert x d (e ∷ es) m = elim (member-of (comes_first d e) x (d ∷ e ∷ es) (e ∷ insert d es) m) [
  | inl n ↦ n
  | inr (inl p) ↦ inr (inl p)
  | inr (inr n) ↦ behind (from_insert x d es n)
]
  where
    behind : Among x (d ∷ es) → Among x (d ∷ e ∷ es)
    behind (inl p) = inl p
    behind (inr n) = inr (inr n)

insert-Same : (d : Desc) (es ds : List Desc) → Same es ds → Same (insert d es) (d ∷ ds)
insert-Same d es ds h = (to, from)
  where
    to : (x : Desc) → Among x (insert d es) → Among x (d ∷ ds)
    to x m = elim (from_insert x d es m) [ inl p ↦ inl p | inr n ↦ inr (h.0 x n) ]

    from : (x : Desc) → Among x (d ∷ ds) → Among x (insert d es)
    from x (inl p) = inserted x d es (inl p)
    from x (inr n) = inserted x d es (inr (h.1 x n))

pub sort-Same : (ds : List Desc) → Same (sort ds) ds
unfolding sort
sort-Same [] = Same-refl []
sort-Same (d ∷ ds) = insert-Same d (sort ds) ds (sort-Same ds)
