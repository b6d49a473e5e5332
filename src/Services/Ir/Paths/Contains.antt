-- ===== src/Services/Ir/Paths/Contains.antt =====
-- What `inside` of src/services/ir_validate.c decides about paths in their shortest form.
use molto.Base.{
  ℕ, ◌≡◌, ◌≢◌, ◌↔◌, refl, ap, ap₂, ◌∙◌, Bool, true, false, some, List, [], ◌∷◌, ◌++◌, ◌==◌, ==_iff,
  Bytes, All, Bool-cases, inl, inr, arith, append-nil, or_intro,
}
use molto.Services.Ir.Paths.{slash, last_is, strip_prefix, ends_segment, inside}
use molto.Services.Ir.Paths.Segments.{HasNoSlash, IsSegment, slashed, rendered, last_is-append}

-- The segments of a directory lead those of a path.
abbrev pub Leads : List Bytes → List Bytes → Type 0
Leads [] names = Unit
Leads (r ∷ roots) [] = ⊥
Leads (r ∷ roots) (s ∷ names) = (r ≡ s) × Leads roots names

abbrev ends : Bytes → Bytes → Bool
ends root path = ends_segment false (strip_prefix root path)

-- Two segments with more segments behind them.
ends-segment :
    (r s : Bytes) (roots names : List Bytes)
    → HasNoSlash r
    → HasNoSlash s
    → (ends (r ++ slashed roots) (s ++ slashed names) ≡ true)
      ↔ ((r ≡ s) × (ends (slashed roots) (slashed names) ≡ true))
unfolding strip_prefix
ends-segment [] [] roots names h k = ((λ e. (refl, e)), (λ (_, e). e))
ends-segment [] (c ∷ s) [] names h (ne, k) =
    ((λ e. absurd (ground arith)), (λ (e, _). absurd (cc e)))
ends-segment [] (c ∷ s) (r' ∷ roots) names h (ne, k) =
    ((λ e. absurd (ground arith)), (λ (e, _). absurd (cc e)))
ends-segment (x ∷ r) [] roots [] (ne, h) k = ((λ e. absurd (cc e)), (λ (e, _). absurd (cc e)))
ends-segment (x ∷ r) [] roots (s' ∷ names) (ne, h) k =
    ((λ e. absurd (ground arith)), (λ (e, _). absurd (cc e)))
ends-segment (x ∷ r) (c ∷ s) roots names (_, h) (_, k) = elim (Bool-cases (x == c)) [
  | inl same ↦
      let (forth, back) = ends-segment r s roots names h k in
      let eq = (==_iff x c).0 same in
      (
        (λ e. let (p, q) = forth (rw (strip_prefix, same) at e) in (ap₂ ◌∷◌ eq p, q)),
        (λ (p, q). rw (strip_prefix, same) (back (cc p, q))),
      )
  | inr other ↦ (
    (λ e. absurd (cc (rw (strip_prefix, other) at e))),
    (λ (p, _). let head : x ≡ c = cc p in absurd (cc (other, (==_iff x c).1 head))),
  )
]

ends-Leads :
    (roots names : List Bytes)
    → All IsSegment roots
    → All IsSegment names
    → (ends (slashed roots) (slashed names) ≡ true) ↔ Leads roots names
unfolding strip_prefix
ends-Leads [] [] h k = ((λ e. tt), (λ e. refl))
ends-Leads [] (s ∷ names) h k = ((λ e. tt), (λ e. refl))
ends-Leads (r ∷ roots) [] h k = ((λ e. absurd (cc e)), (λ e. absurd e))
ends-Leads (r ∷ roots) (s ∷ names) ((_, h), hs) ((_, k), ks) =
    let (forth, back) = ends-segment r s roots names h k in
    let (on, off) = ends-Leads roots names hs ks in
    ((λ e. let (p, q) = forth e in (p, on q)), (λ (p, q). back (p, off q)))

last_is_skip : (x : ℕ) (out s : Bytes) → s ≢ [] → last_is x (out ++ s) ≡ last_is x s
unfolding last_is
last_is_skip x [] s ne = refl
last_is_skip x (c ∷ []) [] ne = absurd (ne refl)
last_is_skip x (c ∷ []) (d ∷ s) ne = refl
last_is_skip x (c ∷ d ∷ out) s ne = last_is_skip x (d ∷ out) s ne

slashed_end :
    (r : Bytes) (roots : List Bytes)
    → All IsSegment (r ∷ roots)
    → last_is slash (slashed (r ∷ roots)) ≡ false
slashed_end r [] (h, _) =
    ap (λ t. last_is slash (slash ∷ t)) (append-nil r) ∙ last_is-append slash (slash ∷ []) r h.0 h.1
slashed_end r (r' ∷ roots) (_, hs) =
    last_is_skip slash (slash ∷ r) (slashed (r' ∷ roots)) (λ e. cc e) ∙ slashed_end r' roots hs

ends_anywhere : (rest : Bytes) → ends_segment true (some rest) ≡ true
ends_anywhere [] = refl
ends_anywhere (c ∷ rest) = or_intro (c == slash) true (inr refl)

-- For absolute paths in their shortest form, `inside` holds just when the segments of the directory
-- lead those of the path: a name that only begins alike is outside.
pub inside-Leads :
    (names roots : List Bytes)
    → All IsSegment names
    → All IsSegment roots
    → (inside (rendered true names) (rendered true roots) ≡ true) ↔ Leads roots names
unfolding inside strip_prefix last_is
inside-Leads [] [] h k = ((λ e. tt), (λ e. refl))
inside-Leads (s ∷ names) [] h k = ((λ e. tt), (λ e. ends_anywhere (s ++ slashed names)))
inside-Leads [] (([]) ∷ roots) h ((ne, _), _) = absurd (ne refl)
inside-Leads [] ((x ∷ r) ∷ roots) h k = ((λ e. absurd (cc e)), (λ e. absurd e))
inside-Leads (s ∷ names) (r ∷ roots) h k =
    rw (slashed_end r roots k) (ends-Leads (r ∷ roots) (s ∷ names) k h)
