-- ===== src/Libc/Text.antt =====
-- C strings in memory.
use processorfuzz.Base.{ℕ, suc, ◌+◌, ◌≤◌, ◌≡◌, ◌≢◌, ◌∙◌, List, [], ◌∷◌, length, arith}
use processorfuzz.Libc.Bytes.{Memory}
use processorfuzz.Libc.Copied.{copied, CopiesUp}

-- At `s` stand the characters `cs`, none of them zero, and then a zero byte.
abbrev pub IsText : Memory → ℕ → List ℕ → Type 0
IsText m s [] = m s ≡ 0
IsText m s (c ∷ cs) = (m s ≡ c) × (c ≢ 0) × IsText m (s + 1) cs

-- A string depends on its own bytes only.
pub IsText-frame :
    (m m' : Memory) (s : ℕ) (cs : List ℕ)
    → ((a : ℕ) → s ≤ a → a ≤ s + length cs → m' a ≡ m a)
    → IsText m s cs
    → IsText m' s cs
IsText-frame m m' s [] same t = same s (omega arith) (omega arith) ∙ t
IsText-frame m m' s (c ∷ cs) same t = (
  same s (omega arith) (omega arith) ∙ t.0,
  t.1,
  IsText-frame m m' (s + 1) cs (λ a p q. same a (omega arith) (omega arith)) t.2,
)

-- Copying the first character leaves the rest of the string alone.
pub IsText-copied :
    (m : Memory) (d s : ℕ) (cs : List ℕ)
    → CopiesUp d s (suc (length cs) + 1)
    → IsText m (s + 1) cs
    → IsText (copied m d s 1) (s + 1) cs
unfolding copied
IsText-copied m d s cs up t = IsText-frame m (copied m d s 1) (s + 1) cs (λ a p q. ground arith) t
