-- ===== src/Vm/FreeList.antt =====
-- The free list of vm.c as a list of its nodes.
use processorfuzz.Base.{ℕ, ◌≡◌, refl, Bool, true, false, Option, none, some, List, [], ◌∷◌}
use processorfuzz.Base.{arith, ◌==◌, if◌then◌else◌}
use processorfuzz.Vm.{pop_free}
use processorfuzz.Vm.Machine.{State, Ref, mapping, node, FreeNode, get, update}

-- From the pointer `p` the links lead through exactly these nodes to a null pointer.
abbrev pub Chain : State → Option Ref → List Ref → Type 0
Chain s p [] = p ≡ none
Chain s p (r ∷ rs) = (p ≡ some r) × Chain s (get s r).next rs

-- Is the entry of `user_mapping` for page `i` among the nodes?
unfoldable pub has_mapping : ℕ → List Ref → Bool
has_mapping i [] = false
has_mapping i (mapping j ∷ rs) = if i == j then true else has_mapping i rs
has_mapping i (node j ∷ rs) = has_mapping i rs

-- The tables that the links stand in.
pub Chain-frame :
    (s s' : State) (p : Option Ref) (rs : List Ref)
    → ((r : Ref) → get s' r ≡ get s r)
    → Chain s p rs
    → Chain s' p rs
Chain-frame s s' p [] same c = c
Chain-frame s s' p (r ∷ rs) same c =
    (c.0, Chain-frame s s' (get s' r).next rs same (rw (same r) c.1))

-- A write to an entry of `user_mapping` that is not on the list leaves the list as it is.
pub Chain-update :
    (s s' : State) (i : ℕ) (n : FreeNode) (p : Option Ref) (rs : List Ref)
    → ((j : ℕ) → s'.freelist_nodes j ≡ s.freelist_nodes j)
    → ((j : ℕ) → s'.user_mapping j ≡ update s.user_mapping i n j)
    → has_mapping i rs ≡ false
    → Chain s p rs
    → Chain s' p rs
unfolding has_mapping
Chain-update s s' i n p [] nodes maps out c = c
Chain-update s s' i n p (node j ∷ rs) nodes maps out c =
    (c.0, Chain-update s s' i n (s'.freelist_nodes j).next rs nodes maps out (rw (nodes j) c.1))
Chain-update s s' i n p (mapping j ∷ rs) nodes maps out c = (
  c.0,
  Chain-update s s' i n (s'.user_mapping j).next rs nodes maps (ground arith)
      (rw (maps j) (ground arith)),
)

pub has_mapping_tail :
    (i : ℕ) (r : Ref) (rs : List Ref) → has_mapping i (r ∷ rs) ≡ false → has_mapping i rs ≡ false
unfolding has_mapping
has_mapping_tail i (node j) rs h = h
has_mapping_tail i (mapping j) rs h = ground arith

-- Taking a node off the list writes to no node.
pub get-pop_free : (s : State) (r t : Ref) → get (pop_free r s) t ≡ get s t
unfolding pop_free
get-pop_free s r (mapping j) = refl
get-pop_free s r (node j) = refl
