-- ===== src/Build/Diff/Split.antt =====
-- `split_lines` of src/build/diff.c loses nothing but the newline at the end of each line.
use molto.Base.{
  ℕ, zero, suc, ◌≤◌, ◌<◌, ◌≡◌, refl, sym, ap, ◌∙◌, ◌≢◌, Bool, true, false, List, [], ◌∷◌, ◌++◌,
  length, All, if◌then◌else◌, ◌==◌, Bytes, Bool-cases, inl, inr, arith,
}
use molto.Build.Diff.{cut_line, split_from, split_lines}

-- Each line, with its newline.
abbrev pub joined : List Bytes → Bytes
joined [] = []
joined (l ∷ ls) = l ++ (b'\n' ∷ joined ls)

-- The text, with a newline behind its last line where it has none.
abbrev pub completed : Bytes → Bytes
completed [] = []
completed (c ∷ []) = if c == b'\n' then c ∷ [] else c ∷ b'\n' ∷ []
completed (c ∷ d ∷ s) = c ∷ completed (d ∷ s)

abbrev pub HasNoNewline : Bytes → Type 0
HasNoNewline l = All (λ c. c ≢ b'\n') l

-- What `cut_line` found.
abbrev Cut : Bytes → Bytes × Bool × Bytes → Type 0
Cut s (item, true, rest) =
    (s ≡ item ++ (b'\n' ∷ rest)) × HasNoNewline item × (length rest < length s)
Cut s (item, false, rest) = (s ≡ item) × HasNoNewline item × (rest ≡ [])

Cut-cons :
    (c : ℕ) (s : Bytes) (r : Bytes × Bool × Bytes)
    → c ≢ b'\n'
    → Cut s r
    → Cut (c ∷ s) (c ∷ r.0, r.1, r.2)
Cut-cons c s (item, true, rest) ne (e, n, l) = (ap (◌∷◌ c) e, (ne, n), omega arith)
Cut-cons c s (item, false, rest) ne (e, n, l) = (ap (◌∷◌ c) e, (ne, n), l)

cut_line-Cut : (s : Bytes) → Cut s (cut_line s)
unfolding cut_line
cut_line-Cut [] = (refl, tt, refl)
cut_line-Cut (c ∷ s) = elim (Bool-cases (c == b'\n')) [
  | inl e ↦ rw e (ap (λ x. x ∷ s) (ground arith), tt, omega arith)
  | inr e ↦ rw e (Cut-cons c s (cut_line s) (ground arith) (cut_line-Cut s))
]

completed-append :
    (l rest : Bytes) → completed (l ++ (b'\n' ∷ rest)) ≡ l ++ (b'\n' ∷ completed rest)
completed-append [] [] = refl
completed-append [] (c ∷ rest) = refl
completed-append (c ∷ []) rest = ap (◌∷◌ c) (completed-append [] rest)
completed-append (c ∷ d ∷ l) rest = ap (◌∷◌ c) (completed-append (d ∷ l) rest)

completed_last :
    (c : ℕ) (l : Bytes) → HasNoNewline (c ∷ l) → completed (c ∷ l) ≡ (c ∷ l) ++ b'\n' ∷ []
completed_last c [] h = ground (arith, h.0)
completed_last c (d ∷ l) h = ap (◌∷◌ c) (completed_last d l h.1)

-- One round of the loop.
round :
    (fuel c : ℕ) (s : Bytes) (r : Bytes × Bool × Bytes)
    → Cut (c ∷ s) r
    → (length r.2 ≤ fuel
        → (joined (split_from fuel r.2) ≡ completed r.2) × All HasNoNewline (split_from fuel r.2))
    → length s ≤ fuel
    → (joined (if r.1 then r.0 ∷ split_from fuel r.2 else r.0 ∷ []) ≡ completed (c ∷ s))
      × All HasNoNewline (if r.1 then r.0 ∷ split_from fuel r.2 else r.0 ∷ [])
round fuel c s (item, true, rest) (e, n, l) ih h =
    let (a, b) = ih (omega arith) in
    (ap (λ x. item ++ (b'\n' ∷ x)) a ∙ sym (ap completed e ∙ completed-append item rest), (n, b))
round fuel c s (item, false, rest) (e, n, l) ih h =
    (rw (← e) (sym (completed_last c s (rw (← e) at n))), (n, tt))

split_from_lem :
    (fuel : ℕ) (s : Bytes)
    → length s ≤ fuel
    → (joined (split_from fuel s) ≡ completed s) × All HasNoNewline (split_from fuel s)
unfolding split_from
split_from_lem zero [] h = (refl, tt)
split_from_lem zero (c ∷ s) h = absurd (omega arith)
split_from_lem (suc fuel) [] h = (refl, tt)
split_from_lem (suc fuel) (c ∷ s) h =
    round fuel c s (cut_line (c ∷ s)) (cut_line-Cut (c ∷ s))
      (split_from_lem fuel (cut_line (c ∷ s)).2) (omega arith)

-- For every text, the lines of `split_lines` hold no newline, and written out with a newline behind
-- each they are the text, completed by a newline if its last line has none.
pub joined-split_lines :
    (text : Bytes)
    → (joined (split_lines text) ≡ completed text) × All HasNoNewline (split_lines text)
unfolding split_lines
joined-split_lines text = split_from_lem (length text) text (omega arith)
