-- ===== src/Services/Ir/Validate/UniqueNames.antt =====
-- Target names in src/services/ir_validate.c.
use molto.Base.{
  ◌≡◌, ◌≢◌, ◌↔◌, refl, sym, ◌∙◌, true, false, not, Option, none, some, List, [], ◌∷◌, length, Bytes,
  ap, false, bytes_eq, bytes_eq_iff, is_some, All, Bool-cases, inl, inr, and_left, and_right,
  and_both, replicate, some_eq,
}
use molto.Services.Ir.{Target, opt_eq}
use molto.Services.Ir.Validate.Graph.{
  none_named, names_are_unique, graph_is_sound, acyclic_each, mark_none,
}

-- No later target has the name of an earlier one.
abbrev pub HaveOwnNames : List Target → Type 0
HaveOwnNames [] = Unit
HaveOwnNames (target ∷ targets) =
    All (λ (t : Target). (name : Bytes) → target.name ≡ some name → t.name ≢ some name) targets
    × HaveOwnNames targets

opt_eq_lem : (o : Option Bytes) (s : Bytes) → opt_eq o s ≡ false → o ≢ some s
opt_eq_lem none s h e = cc e
opt_eq_lem (some t) s h e = cc (h, (bytes_eq_iff t s).1 (some_eq e))

opt_eq_differs : (o : Option Bytes) (s : Bytes) → o ≢ some s → opt_eq o s ≡ false
opt_eq_differs none s h = refl
opt_eq_differs (some t) s h = elim (Bool-cases (bytes_eq t s)) [
  | inl same ↦ absurd (h (ap some ((bytes_eq_iff t s).0 same)))
  | inr differ ↦ differ
]

none_named-ne :
    (name : Option Bytes) (targets : List Target)
    → none_named name targets ≡ true
    → All (λ (t : Target). (n : Bytes) → name ≡ some n → t.name ≢ some n) targets
unfolding none_named
none_named-ne name [] h = tt
none_named-ne none (t ∷ targets) h = ((λ n e. cc e), none_named-ne none targets refl)
none_named-ne (some name) (t ∷ targets) h =
    let other = and_left (not (opt_eq t.name name)) (none_named (some name) targets) h in
    let rest = and_right (not (opt_eq t.name name)) (none_named (some name) targets) h in
    (
      (λ n e f. elim (Bool-cases (opt_eq t.name name)) [
        | inl same ↦ cc (other, same)
        | inr differ ↦ opt_eq_lem t.name name differ (f ∙ sym e)
      ]),
      none_named-ne (some name) targets rest,
    )

pub names_are_unique-HaveOwnNames :
    (targets : List Target) → names_are_unique targets ≡ true → HaveOwnNames targets
unfolding names_are_unique
names_are_unique-HaveOwnNames [] h = tt
names_are_unique-HaveOwnNames (target ∷ targets) h = (
  none_named-ne target.name targets
      (and_left (none_named target.name targets) (names_are_unique targets) h),
  names_are_unique-HaveOwnNames targets
      (and_right (none_named target.name targets) (names_are_unique targets) h),
)

ne-none_named :
    (name : Option Bytes) (targets : List Target)
    → All (λ (t : Target). (n : Bytes) → name ≡ some n → t.name ≢ some n) targets
    → none_named name targets ≡ true
unfolding none_named
ne-none_named none targets h = refl
ne-none_named (some name) [] h = refl
ne-none_named (some name) (t ∷ targets) (other, rest) =
    rw (opt_eq_differs t.name name (other name refl)) (ne-none_named (some name) targets rest)

HaveOwnNames-names_are_unique :
    (targets : List Target) → HaveOwnNames targets → names_are_unique targets ≡ true
unfolding names_are_unique
HaveOwnNames-names_are_unique [] h = refl
HaveOwnNames-names_are_unique (target ∷ targets) (here, rest) =
    rw (ne-none_named target.name targets here) (HaveOwnNames-names_are_unique targets rest)

pub names_are_unique_iff :
    (targets : List Target) → (names_are_unique targets ≡ true) ↔ HaveOwnNames targets
names_are_unique_iff targets =
    (names_are_unique-HaveOwnNames targets, HaveOwnNames-names_are_unique targets)

pub names_hold :
    (targets : List Target) → graph_is_sound targets ≡ true → names_are_unique targets ≡ true
unfolding graph_is_sound
names_hold targets h =
    (and_both (names_are_unique targets)
      (is_some (acyclic_each targets 0 (length targets) (replicate (length targets) mark_none)))
      h).0
