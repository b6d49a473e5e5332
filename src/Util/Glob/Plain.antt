-- ===== src/Util/Glob/Plain.antt =====
-- Patterns of src/util/glob.c with no special byte.
use molto.Base.{
  ℕ, ◌≡◌, ◌≢◌, refl, ap₂, Bool, true, false, Option, none, some, [], ◌∷◌, All, Bytes, arith, ◌↔◌,
  inl, inr, subst, ◌⊎◌,
}
use molto.Util.Glob.{item_matches, starts_with_star, glob_match}
use molto.Util.Glob.Matches.{Matches, done, item, item_inv, no_item_left}
use molto.Util.Glob.Decides.{Answers, glob_match-Answers}

abbrev pub IsPlain : ℕ → Type 0
IsPlain c = (c ≢ b'*') × (c ≢ b'?') × (c ≢ b'[') × (c ≢ 92)

plain_item :
    (x c : ℕ) (p : Bytes)
    → IsPlain x
    → (item_matches (x ∷ p) c ≡ some p) × (x ≡ c) ⊎ (item_matches (x ∷ p) c ≡ none) × (x ≢ c)
unfolding item_matches
plain_item x c [] h = ground arith
plain_item x c (y ∷ p) h = ground arith

not_star : (x : ℕ) (p : Bytes) → IsPlain x → starts_with_star (x ∷ p) ≡ false
not_star x p h = ground arith

plain_self : (p : Bytes) → All IsPlain p → Matches p p
plain_self [] h = done
plain_self (x ∷ p) (hx, h) = elim (plain_item x x p hx) [
  | inl (e, _) ↦ item (not_star x p hx) e (plain_self p h)
  | inr (_, ne) ↦ absurd (ne refl)
]

nil_takes_none : {c : ℕ} {t : Bytes} → ¬ Matches [] (c ∷ t)
unfolding item_matches
nil_takes_none (item s e d) = cc e

yields_true : {G : Type 0} (o : Option Bool) → Answers G o → G → o ≡ some true
yields_true (some true) h g = refl
yields_true (some false) h g = absurd (h g)
yields_true none h g = absurd h

plain_only : (p t : Bytes) → All IsPlain p → Matches p t → p ≡ t
plain_only [] t h done = refl
plain_only [] (c ∷ t) h d = absurd (nil_takes_none d)
plain_only (x ∷ p) [] (hx, h) d = cc (no_item_left (not_star x p hx) d)
plain_only (x ∷ p) (c ∷ t) (hx, h) d =
    let (q, e, rest) = item_inv (not_star x p hx) d in
    elim (plain_item x c p hx) [
      | inl (f, same) ↦
          let back : q ≡ p = cc in
          ap₂ ◌∷◌ same (plain_only p t h (subst (λ u. Matches u t) back rest))
      | inr (f, _) ↦ cc (e, f)
    ]

-- A pattern without `*`, `?`, `[` and backslash matches its own text and no other.
pub glob_match-plain : (p t : Bytes) → All IsPlain p → (glob_match p t ≡ some true) ↔ (p ≡ t)
glob_match-plain p t h = (
  λ e. plain_only p t h (rw e at (glob_match-Answers p t)),
  λ e. yields_true _ (glob_match-Answers p t) (subst (Matches p) e (plain_self p h)),
)
