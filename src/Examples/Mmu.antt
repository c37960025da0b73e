-- ===== src/Examples/Mmu.antt =====
-- One round of the page-table walk at concrete entries.
use processorfuzz.Base.{ℕ, ◌≡◌, refl, true, false}
use processorfuzz.Mmu.{store, load, user_mode, supervisor_mode, page, denied, table, has, walk_step}
use processorfuzz.Mmu.Allowed.{walk_step-IsAllowed, IsAllowed}

-- A user page at 0x8008_0000 with all permissions, accessed and dirty.
abbrev user_entry : ℕ
user_entry = 0x2002_00df

walk_step-IsAllowed_example : IsAllowed store user_mode false false 0x1234 0 user_entry 0x8008_0000
unfolding walk_step has
walk_step-IsAllowed_example =
    walk_step-IsAllowed store user_mode false false 0x1234 0 user_entry 0x8008_0000 refl

-- The supervisor needs SUM, a store needs D, and an entry without R, W and X is a table.
walk_step_runs :
    (walk_step load supervisor_mode false false 0x1234 0 user_entry ≡ denied)
    × (walk_step load supervisor_mode true false 0x1234 0 user_entry ≡ page 0x8008_0000)
    × (walk_step store user_mode false false 0x1234 0 0x2002_005f ≡ denied)
    × (walk_step load user_mode false false 0x1234 0 0x2002_0001 ≡ table 0x8008_0000)
unfolding walk_step has
walk_step_runs = (refl, refl, refl, refl)
