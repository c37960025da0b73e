-- ===== src/Vm/Machine.antt =====
-- The data of Template/include/v/vm.c, and a monad of its operations. An operation ends
-- normally, by the `ecall` of a failed `assert` (which ends the test), or in a page fault that the
-- supervisor takes while it copies a user page.
use processorfuzz.Base.{ℕ, Bool, Option, if◌then◌else◌}
pub use processorfuzz.Base.{update}
use processorfuzz.Libc.Bytes.{Memory}

-- Template/include/v/riscv_test.h and encoding.h.
abbrev pub max_test_pages : ℕ
max_test_pages = 127

abbrev pub pgsize : ℕ
pgsize = 4096

abbrev pub megapage_size : ℕ
megapage_size = 0x20_0000

abbrev pub dram_base : ℕ
dram_base = 0x8000_0000

abbrev pub cause_user_ecall : ℕ
cause_user_ecall = 0x8

abbrev pub cause_fetch_page_fault : ℕ
cause_fetch_page_fault = 0xc

abbrev pub cause_load_page_fault : ℕ
cause_load_page_fault = 0xd

abbrev pub cause_store_page_fault : ℕ
cause_store_page_fault = 0xf

-- A pointer to an entry of `user_mapping` or of `freelist_nodes`.
pub data Ref : Type 0 where
  mapping node : ℕ → Ref

pub record FreeNode : Type 0 where
  pub addr : ℕ
  pub next : Option Ref

-- `memory` is physical; `user_llpt` is the last-level table of the user pages; `sum` is the bit
-- of `sstatus` that lets the supervisor read user pages.
pub record State : Type 0 where
  pub user_llpt : ℕ → ℕ
  pub user_mapping : ℕ → FreeNode
  pub freelist_nodes : ℕ → FreeNode
  pub freelist_head : Option Ref
  pub freelist_tail : Option Ref
  pub memory : Memory
  pub sum : Bool

abbrev pub get : State → Ref → FreeNode
get s (mapping i) = s.user_mapping i
get s (node i) = s.freelist_nodes i

abbrev pub put : State → Ref → FreeNode → State
put s (mapping i) n = record s { user_mapping = update s.user_mapping i n }
put s (node i) n = record s { freelist_nodes = update s.freelist_nodes i n }

pub data Outcome (A : Type 0) : Type 0 where
  ok : A → State → Outcome A
  assert_failed : State → Outcome A
  page_faulted : (cause badvaddr : ℕ) → State → Outcome A
  out_of_fuel : Outcome A

abbrev pub M : Type 0 → Type 0
M A = State → Outcome A

abbrev pub pure : {A : Type 0} → A → M A
pure = ok

infixl 5 ◌>>=◌ ◌>>◌
abbrev pub ◌>>=◌ : {A B : Type 0} → M A → (A → M B) → M B
◌>>=◌ m f s = elim (m s) [
  | ok a s' ↦ f a s'
  | assert_failed s' ↦ assert_failed s'
  | page_faulted c b s' ↦ page_faulted c b s'
  | out_of_fuel ↦ out_of_fuel
]

abbrev pub ◌>>◌ : {B : Type 0} → M (Unit {0}) → M B → M B
m >> k = m >>= λ _. k

abbrev pub read : M State
read s = ok s s

abbrev pub write : State → M (Unit {0})
write s' s = ok tt s'

-- `assert` of vm.c.
abbrev pub assert : Bool → M (Unit {0})
assert b s = if b then ok tt s else assert_failed s
