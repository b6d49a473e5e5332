-- ===== src/Util/Semver/Lawful.antt =====
-- Comparisons that order what they compare, and how they are put together.
use Prim.Native.Nat.{compare, Ordering}
use molto.Base.{◌≡◌, ◌⊎◌, inl, inr, refl, sym, ap, ◌∙◌, List, [], ◌∷◌, arith}
use molto.Util.Semver.{or_else}

abbrev pub flip : Ordering → Ordering
flip Ordering.lt = Ordering.gt
flip Ordering.eq = Ordering.eq
flip Ordering.gt = Ordering.lt

-- The comparison is a total preorder: it answers the two orders of its arguments oppositely, is
-- transitive, and does not tell apart what it finds equal.
pub record IsLawful {ℓ} {A : Type ℓ} (cmp : A → A → Ordering) : Type ℓ where
  pub flips : (a b : A) → cmp b a ≡ flip (cmp a b)
  pub trans : (a b c : A) → cmp a b ≡ Ordering.lt → cmp b c ≡ Ordering.lt → cmp a c ≡ Ordering.lt
  pub same : (a b c : A) → cmp a b ≡ Ordering.eq → cmp a c ≡ cmp b c

pub compare-IsLawful : IsLawful compare
compare-IsLawful = record {
  flips = λ a b. ground arith;
  trans = λ a b c h k. ground arith;
  same = λ a b c h. ground arith;
}

pub Ordering-cases : (o : Ordering) → (o ≡ Ordering.lt) ⊎ (o ≡ Ordering.eq) ⊎ (o ≡ Ordering.gt)
Ordering-cases Ordering.lt = inl refl
Ordering-cases Ordering.eq = inr (inl refl)
Ordering-cases Ordering.gt = inr (inr refl)

pub flip-or_else : (o p : Ordering) → flip (or_else o p) ≡ or_else (flip o) (flip p)
flip-or_else Ordering.lt p = refl
flip-or_else Ordering.eq p = refl
flip-or_else Ordering.gt p = refl

pub or_else_assoc : (o p q : Ordering) → or_else (or_else o p) q ≡ or_else o (or_else p q)
or_else_assoc Ordering.lt p q = refl
or_else_assoc Ordering.eq p q = refl
or_else_assoc Ordering.gt p q = refl

-- The first comparison is less, or it is equal and the second one is less.
or_else-lt :
    (o p : Ordering)
    → or_else o p ≡ Ordering.lt
    → (o ≡ Ordering.lt) ⊎ ((o ≡ Ordering.eq) × (p ≡ Ordering.lt))
or_else-lt Ordering.lt p h = inl refl
or_else-lt Ordering.eq p h = inr (refl, h)
or_else-lt Ordering.gt p h = absurd (cc h)

or_else-eq : (o p : Ordering) → or_else o p ≡ Ordering.eq → (o ≡ Ordering.eq) × (p ≡ Ordering.eq)
or_else-eq Ordering.lt p h = absurd (cc h)
or_else-eq Ordering.eq p h = (refl, h)
or_else-eq Ordering.gt p h = absurd (cc h)

module _ {ℓ} {A : Type ℓ} where
  -- What is equal to a second argument may stand for it.
  pub same_right :
      (cmp : A → A → Ordering) (a b c : A)
      → IsLawful cmp
      → cmp b c ≡ Ordering.eq
      → cmp a b ≡ cmp a c
  same_right cmp a b c l h = l.flips b a ∙ ap flip (l.same b c a h) ∙ sym (l.flips c a)

  pub IsLawful-on {κ} :
      {B : Type κ} (cmp : A → A → Ordering) (f : B → A)
      → IsLawful cmp
      → IsLawful (λ x y. cmp (f x) (f y))
  IsLawful-on cmp f l = record {
    flips = λ a b. l.flips (f a) (f b);
    trans = λ a b c h k. l.trans (f a) (f b) (f c) h k;
    same = λ a b c h. l.same (f a) (f b) (f c) h;
  }

  pub IsLawful-or_else :
      (cmp cmp2 : A → A → Ordering)
      → IsLawful cmp
      → IsLawful cmp2
      → IsLawful (λ x y. or_else (cmp x y) (cmp2 x y))
  IsLawful-or_else cmp cmp2 l m = record {
    flips = λ a b. rw (l.flips a b, m.flips a b) (sym (flip-or_else (cmp a b) (cmp2 a b)));
    trans = λ a b c h k. elim (or_else-lt (cmp a b) (cmp2 a b) h) [
      | inl p ↦ elim (or_else-lt (cmp b c) (cmp2 b c) k) [
        | inl q ↦ rw (l.trans a b c p q) refl
        | inr (q, _) ↦ rw (sym (same_right cmp a b c l q) ∙ p) refl
      ]
      | inr (p, p2) ↦ elim (or_else-lt (cmp b c) (cmp2 b c) k) [
        | inl q ↦ rw (l.same a b c p ∙ q) refl
        | inr (q, q2) ↦ rw (l.same a b c p ∙ q) (m.trans a b c p2 q2)
      ]
    ];
    same = λ a b c h.
        let (p, p2) = or_else-eq (cmp a b) (cmp2 a b) h in
        rw (l.same a b c p, m.same a b c p2) refl;
  }

  pub IsLawful-same :
      (cmp cmp2 : A → A → Ordering)
      → ((a b : A) → cmp a b ≡ cmp2 a b)
      → IsLawful cmp
      → IsLawful cmp2
  IsLawful-same cmp cmp2 e l = record {
    flips = λ a b. sym (e b a) ∙ l.flips a b ∙ ap flip (e a b);
    trans = λ a b c h k. sym (e a c) ∙ l.trans a b c (e a b ∙ h) (e b c ∙ k);
    same = λ a b c h. sym (e a c) ∙ l.same a b c (e a b ∙ h) ∙ e b c;
  }

  -- Element by element; a list that ends first is less.
  abbrev pub lex : (A → A → Ordering) → List A → List A → Ordering
  lex cmp [] [] = Ordering.eq
  lex cmp [] (_ ∷ _) = Ordering.lt
  lex cmp (_ ∷ _) [] = Ordering.gt
  lex cmp (x ∷ xs) (y ∷ ys) = or_else (cmp x y) (lex cmp xs ys)

module _ {ℓ} {A : Type ℓ} (cmp : A → A → Ordering) (l : IsLawful cmp) where
  lex_flips : (a b : List A) → lex cmp b a ≡ flip (lex cmp a b)
  lex_flips [] [] = refl
  lex_flips [] (y ∷ b) = refl
  lex_flips (x ∷ a) [] = refl
  lex_flips (x ∷ a) (y ∷ b) =
      rw (l.flips x y, lex_flips a b) (sym (flip-or_else (cmp x y) (lex cmp a b)))

  lex_same : (a b c : List A) → lex cmp a b ≡ Ordering.eq → lex cmp a c ≡ lex cmp b c
  lex_same [] [] c h = refl
  lex_same [] (y ∷ b) c h = absurd (cc h)
  lex_same (x ∷ a) [] c h = absurd (cc h)
  lex_same (x ∷ a) (y ∷ b) [] h = refl
  lex_same (x ∷ a) (y ∷ b) (z ∷ c) h =
      let (p, q) = or_else-eq (cmp x y) (lex cmp a b) h in
      rw (l.same x y z p, lex_same a b c q) refl

  lex_trans :
      (a b c : List A)
      → lex cmp a b ≡ Ordering.lt
      → lex cmp b c ≡ Ordering.lt
      → lex cmp a c ≡ Ordering.lt
  lex_trans [] [] c h k = absurd (cc h)
  lex_trans (x ∷ a) [] c h k = absurd (cc h)
  lex_trans [] (y ∷ b) [] h k = absurd (cc k)
  lex_trans [] (y ∷ b) (z ∷ c) h k = refl
  lex_trans (x ∷ a) (y ∷ b) [] h k = absurd (cc k)
  lex_trans (x ∷ a) (y ∷ b) (z ∷ c) h k = elim (or_else-lt (cmp x y) (lex cmp a b) h) [
    | inl p ↦ elim (or_else-lt (cmp y z) (lex cmp b c) k) [
      | inl q ↦ rw (l.trans x y z p q) refl
      | inr (q, _) ↦ rw (sym (same_right cmp x y z l q) ∙ p) refl
    ]
    | inr (p, p2) ↦ elim (or_else-lt (cmp y z) (lex cmp b c) k) [
      | inl q ↦ rw (l.same x y z p ∙ q) refl
      | inr (q, q2) ↦ rw (l.same x y z p ∙ q) (lex_trans a b c p2 q2)
    ]
  ]

  pub lex-IsLawful : IsLawful (lex cmp)
  lex-IsLawful = record { flips = lex_flips; trans = lex_trans; same = lex_same }
