-- ===== src/Services/Ir/Validate/Chains.antt =====
-- Chains of dependencies between the targets of a document, which src/services/ir_validate.c
-- searches for cycles.
use molto.Base.{ℕ, ◌≡◌, some, List, get_elem?, Bytes, All}
use molto.Services.Ir.{Target}
use molto.Services.Ir.Validate.Graph.{find_target, depends}

-- The target at `i` names the target at `j`.
abbrev pub DependsOn : List Target → ℕ → ℕ → Type 0
DependsOn targets i j =
    (k : ℕ) × (name : Bytes) × (get_elem? (depends targets i) k ≡ some name)
    × (find_target targets name ≡ some j)

-- Every name that a target depends on is declared.
abbrev pub IsDeclared : List Target → ℕ → Type 0
IsDeclared targets i =
    All (λ name. (j : ℕ) × (find_target targets name ≡ some j)) (depends targets i)

-- A target below which every name is declared and every chain of dependencies ends.
pub data Grounded (targets : List Target) : ℕ → Type 0 where
  grounded :
      (i : ℕ)
      → IsDeclared targets i
      → ((j : ℕ) → DependsOn targets i j → Grounded targets j)
      → Grounded targets i

-- A chain of one dependency or more.
pub data Chain (targets : List Target) : ℕ → ℕ → Type 0 where
  one : (i j : ℕ) → DependsOn targets i j → Chain targets i j
  more : (i k j : ℕ) → DependsOn targets i k → Chain targets k j → Chain targets i j

pub Chain-snoc :
    (targets : List Target) (i k j : ℕ)
    → Chain targets i k
    → DependsOn targets k j
    → Chain targets i j
Chain-snoc targets i k j (one _ _ d) last = more i k j d (one k j last)
Chain-snoc targets i k j (more _ m _ d c) last = more i m j d (Chain-snoc targets m k j c last)

pub Grounded-no_cycle : (targets : List Target) (i : ℕ) → Grounded targets i → Chain targets i i → ⊥
Grounded-no_cycle targets i (grounded _ _ below) (one _ _ d) =
    Grounded-no_cycle targets i (below i d) (one i i d)
Grounded-no_cycle targets i (grounded _ _ below) (more _ k _ d c) =
    Grounded-no_cycle targets k (below k d) (Chain-snoc targets k i k c d)
