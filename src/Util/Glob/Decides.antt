-- ===== src/Util/Glob/Decides.antt =====
-- The loop of `glob_match` in src/util/glob.c, which goes back to the last star only, decides
-- `Matches`.
use molto.Base.{
  ℕ, zero, suc, ◌+◌, ◌*◌, ◌≤◌, ◌<◌, ◌≡◌, ◌≢◌, refl, sym, subst, Bool, true, false, Option, none,
  some, [], ◌∷◌, length, Bytes, Bool-cases, Option-cases, inl, inr, arith, ◌==◌,
}
use molto.Util.Glob.{
  star, item_matches, Back, only_stars, starts_with_star, resume_later, after_item, match_loop,
  glob_match,
}
use molto.Util.Glob.Matches.{
  Matches, leave, take, item, item_rest_lem, only_stars_iff, star_at_end, star_must_take,
  second_star, item_inv, star_absorb,
}

-- The loop ended with an answer, and the answer about `Goal` is right.
abbrev pub Answers : Type 0 → Option Bool → Type 0
Answers Goal none = ⊥
Answers Goal (some true) = Goal
Answers Goal (some false) = ¬ Goal

item_step :
    {p q : Bytes} {c : ℕ} {t : Bytes}
    → starts_with_star p ≡ false
    → item_matches p c ≡ some q
    → Matches p (c ∷ t)
    → Matches q t
item_step {p} {q} {c} {t} s e d =
    let (r, f, rest) = item_inv s d in let same : r ≡ q = cc in subst (λ u. Matches u t) same rest

ne-nil : (c : ℕ) {p q : Bytes} → item_matches p c ≡ some q → p ≢ []
unfolding item_matches
ne-nil c e h = cc (rw h at e)

-- `Goal` is what the caller asked; every pattern that is resumed from is shorter than `width`.
module _ (Goal : Type 0) (width : ℕ) where
  -- What the two saved pointers say: the goal is whether a star in front of `after_star` matches
  -- `resume`, and a match from where they point would be one from here.
  abbrev Saved : ℕ → Bytes → Bytes → Back → Type 0
  Saved left p t none = Goal → Matches p t
  Saved left p t (some (after_star, resume)) =
      (Goal → Matches (star ∷ after_star) resume)
      × (Matches (star ∷ after_star) resume → Goal)
      × (Matches after_star resume → Matches p t)
      × (length t ≤ length resume)
      × (length resume ≤ left)
      × (length after_star < width)

  record LoopInv (fuel left : ℕ) (p t : Bytes) (back : Back) : Type 0 where
    sound : Matches p t → Goal
    complete : Goal → Matches (star ∷ p) t
    saved : Saved left p t back
    text_room : length t ≤ left
    pattern_room : length p < width
    fuel_room : left * width + length p < fuel

  at_new_star :
      {fuel left : ℕ} {p t : Bytes}
      → (Goal → Matches (star ∷ p) t)
      → (Matches (star ∷ p) t → Goal)
      → length t ≤ left
      → length p < width
      → left * width + length p < fuel
      → LoopInv fuel left p t (some (p, t))
  at_new_star f g a b c = record {
    sound = λ d. g (leave d);
    complete = f;
    saved = (f, g, λ d. d, omega arith, a, b);
    text_room = a;
    pattern_room = b;
    fuel_room = c;
  }

  mismatch :
      {fuel : ℕ} {c : ℕ} {p t : Bytes} (left : ℕ) (back : Back)
      (next : Bytes → Bytes → Back → Option Bool)
      → ((left' : ℕ) (p' t' : Bytes) (back' : Back)
          → LoopInv fuel left' p' t' back'
          → Answers Goal (next p' t' back'))
      → LoopInv (suc fuel) left p (c ∷ t) back
      → ¬ Matches p (c ∷ t)
      → Answers Goal (resume_later back next)
  mismatch left none next rec i no_match = λ g. no_match (i.saved g)
  mismatch left (some (after, [])) next rec i no_match =
      let (_, _, _, bad, _, _) = i.saved in absurd (omega arith)
  mismatch zero (some (after, x ∷ resume)) next rec i no_match =
      let (_, _, _, _, bad, _) = i.saved in absurd (omega arith)
  mismatch (suc left) (some (after, x ∷ resume)) next rec i no_match =
      let (f, g, down, _, room, short) = i.saved in
      let fuel_room = i.fuel_room in
      rec left after resume (some (after, resume)) (
        at_new_star (λ a. star_must_take (f a) (λ d. no_match (down d))) (λ d. g (take d))
          (omega arith) short (omega arith))

  Saved-item :
      (left c : ℕ) (p q t : Bytes) (back : Back)
      → starts_with_star p ≡ false
      → item_matches p c ≡ some q
      → Saved left p (c ∷ t) back
      → Saved left q t back
  Saved-item left c p q t none s e saved = λ g. item_step s e (saved g)
  Saved-item left c p q t (some (after, resume)) s e (f, g, down, a, b, w) =
      (f, g, λ d. item_step s e (down d), omega arith, b, w)

  at_item :
      {fuel left c : ℕ} {p q t : Bytes} {back : Back}
      → starts_with_star p ≡ false
      → item_matches p c ≡ some q
      → LoopInv (suc fuel) left p (c ∷ t) back
      → LoopInv fuel left q t back
  at_item {left} {c} {p} {q} {t} {back} s e i =
      let (same, shorter) = item_rest_lem p c e in
      let text_room = i.text_room in
      let pattern_room = i.pattern_room in
      let fuel_room = i.fuel_room in
      record {
        sound = λ d. i.sound (item s e d);
        complete = λ g.
            subst (λ u. Matches (star ∷ u) t) (sym same)
              (star_absorb t s (ne-nil c e) (i.complete g));
        saved = Saved-item left c p q t back s e i.saved;
        text_room = omega arith;
        pattern_room = omega arith;
        fuel_room = omega arith;
      }

  at_end :
      (p : Bytes) {fuel left : ℕ} {back : Back}
      → LoopInv fuel left p [] back
      → Answers Goal (some (only_stars p))
  at_end p i = elim (Bool-cases (only_stars p)) [
    | inl e ↦ rw e (i.sound ((only_stars_iff p).0 e))
    | inr e ↦ rw e (λ g. cc (e, (only_stars_iff p).1 (star_at_end (i.complete g))))
  ]

  star_case :
      (fuel left c : ℕ) (p t : Bytes) (back : Back) (x : ℕ)
      → (x == star) ≡ true
      → LoopInv (suc fuel) left (x ∷ p) (c ∷ t) back
      → LoopInv fuel left p (c ∷ t) (some (p, c ∷ t))
  star_case fuel left c p t back x e i =
      let f : x ≡ star = ground arith in
      let text_room = i.text_room in
      let pattern_room = i.pattern_room in
      let fuel_room = i.fuel_room in
      at_new_star (λ g. second_star (subst (λ u. Matches (star ∷ u ∷ p) (c ∷ t)) f (i.complete g)))
        (λ d. i.sound (subst (λ u. Matches (u ∷ p) (c ∷ t)) (sym f) d)) text_room (omega arith)
        (omega arith)

  item_case :
      (fuel left c : ℕ) (p t : Bytes) (back : Back) (next : Bytes → Bytes → Back → Option Bool)
      → starts_with_star p ≡ false
      → ((left' : ℕ) (p' t' : Bytes) (back' : Back)
          → LoopInv fuel left' p' t' back'
          → Answers Goal (next p' t' back'))
      → LoopInv (suc fuel) left p (c ∷ t) back
      → Answers Goal (after_item p t back next (item_matches p c))
  item_case fuel left c p t back next s rec i = elim (Option-cases (item_matches p c)) [
    | inr (q, e) ↦ rw e (rec left q t back (at_item s e i))
    | inl e ↦ rw e (mismatch left back next rec i (λ d. let (q, f, _) = item_inv s d in cc (e, f)))
  ]

  match_loop-Answers :
      (fuel left : ℕ) (p t : Bytes) (back : Back)
      → LoopInv fuel left p t back
      → Answers Goal (match_loop fuel p t back)
  unfolding match_loop
  match_loop-Answers zero left p t back i = let fuel_room = i.fuel_room in omega arith
  match_loop-Answers (suc fuel) left p [] back i = at_end p i
  match_loop-Answers (suc fuel) left [] (c ∷ t) back i =
      item_case fuel left c [] t back (match_loop fuel) refl
        (λ left' p' t' back' i'. match_loop-Answers fuel left' p' t' back' i') i
  match_loop-Answers (suc fuel) left (x ∷ p) (c ∷ t) back i =
      let more = match_loop-Answers fuel left p (c ∷ t) (some (p, c ∷ t)) in
      let rec = match_loop-Answers fuel in
      elim (Bool-cases (x == star)) [
        | inl e ↦ rw e (more (star_case fuel left c p t back x e i))
        | inr e ↦ rw e (item_case fuel left c (x ∷ p) t back (match_loop fuel) e rec i)
      ]

-- For every pattern and text, `glob_match` ends within its rounds, resumes only at a byte of the
-- text, and answers true exactly if the text matches the pattern.
pub glob_match-Answers :
    (pattern text : Bytes) → Answers (Matches pattern text) (glob_match pattern text)
unfolding glob_match
glob_match-Answers pattern text =
    match_loop-Answers (Matches pattern text) (length pattern + 1) _ (length text) pattern text none
      (record {
        sound = λ d. d;
        complete = leave;
        saved = λ d. d;
        text_room = omega arith;
        pattern_room = omega arith;
        fuel_room = omega arith;
      })
