-- ===== src/Util/Semver/Highest.antt =====
-- What `semver_highest` of src/util/semver.c chooses, and the order that its sort is given.
use Prim.Native.Nat.{Ordering}
use molto.Base.{
  ℕ, ◌≡◌, ◌≢◌, ◌⊎◌, ◌<◌, lt→ltb, arith, and_intro, refl, sym, ap, ◌∙◌, subst, Bool, true, false,
  ◌&&◌, Option, none, some, List, [], ◌∷◌, length, ltb, if◌then◌else◌, Bytes, >>=-eq-some, some_eq,
  All, All-map, Some, Option-cases, inl, inr,
}
use molto.Util.Semver.{
  Semver, semver_parse, semver_compare, better, best_from, semver_highest, newest_first,
  compare_newest_first,
}
use molto.Util.Semver.Lawful.{flip, IsLawful, Ordering-cases, IsLawful-on, same_right}
use molto.Util.Semver.Precedence.{semver_compare-IsLawful}

-- The text, if it is a version, does not come after the version.
abbrev pub NotAfter : Semver → Bytes → Type 0
NotAfter v text = (w : Semver) → semver_parse text ≡ some w → semver_compare w v ≢ Ordering.gt

-- What is not after a version is not after one that this is not after.
NotAfter-trans :
    (a b c : Semver)
    → semver_compare a b ≢ Ordering.gt
    → semver_compare b c ≢ Ordering.gt
    → semver_compare a c ≢ Ordering.gt
NotAfter-trans a b c h k e =
    let l = semver_compare-IsLawful in
    let ca : semver_compare c a ≡ Ordering.lt = l.flips a c ∙ ap flip e in
    elim (Ordering-cases (semver_compare b c)) [
      | inr (inr q) ↦ k q
      | inr (inl q) ↦ h (same_right semver_compare a b c l q ∙ e)
      | inl q ↦ let ba = l.trans b c a q ca in h (l.flips b a ∙ ap flip ba)
    ]

-- The best so far, against the texts that were read.
abbrev IsBest : List Bytes → Option (Bytes × Semver) → Type 0
IsBest seen none = All (λ text. semver_parse text ≡ none) seen
IsBest seen (some (text, v)) =
    Some (λ u. u ≡ text) seen × (semver_parse text ≡ some v) × All (NotAfter v) seen

abbrev reverse_onto : List Bytes → List Bytes → List Bytes
reverse_onto seen [] = seen
reverse_onto seen (x ∷ xs) = reverse_onto (x ∷ seen) xs

not_version :
    (v : Semver) (seen : List Bytes)
    → All (λ text. semver_parse text ≡ none) seen
    → All (NotAfter v) seen
not_version v seen h =
    All-map (λ text. semver_parse text ≡ none) (NotAfter v) (λ text e w f. absurd (cc (e, f))) seen
      h

self-NotAfter : (v : Semver) (text : Bytes) → semver_parse text ≡ some v → NotAfter v text
self-NotAfter v text e w f h =
    let same : w ≡ v = some_eq (sym f ∙ e) in
    let at : semver_compare v v ≡ Ordering.gt =
      subst (λ x. semver_compare x v ≡ Ordering.gt) same h in
    cc (semver_compare-IsLawful.flips v v, at)

-- A version that is not after is not after whatever its text parses to.
one-NotAfter :
    (v c : Semver) (text : Bytes)
    → semver_parse text ≡ some c
    → semver_compare c v ≢ Ordering.gt
    → NotAfter v text
one-NotAfter v c text e h w f g =
    h (subst (λ x. semver_compare x v ≡ Ordering.gt) (some_eq (sym f ∙ e)) g)

raise :
    (v c : Semver) (seen : List Bytes)
    → semver_compare c v ≡ Ordering.gt
    → All (NotAfter v) seen
    → All (NotAfter c) seen
raise v c seen later h =
    let less : semver_compare v c ≡ Ordering.lt =
      semver_compare-IsLawful.flips c v ∙ ap flip later in
    All-map (NotAfter v) (NotAfter c)
      (λ text n w f. NotAfter-trans w v c (n w f) (λ g. cc (less, g))) seen h

better-IsBest :
    (seen : List Bytes) (best : Option (Bytes × Semver)) (text : Bytes) (o : Option Semver)
    → semver_parse text ≡ o
    → IsBest seen best
    → IsBest (text ∷ seen) (better best text o)
better-IsBest seen none text none e h = (e, h)
better-IsBest seen (some (best_text, best)) text none e (found, f, all) =
    (inr found, f, ((λ w g. absurd (cc (e, g))), all))
better-IsBest seen none text (some c) e h =
    (inl refl, e, (self-NotAfter c text e, not_version c seen h))
better-IsBest seen (some (best_text, best)) text (some c) e (found, f, all) =
    elim (Ordering-cases (semver_compare c best)) [
      | inr (inr later) ↦
          let taken : better (some (best_text, best)) text (some c) ≡ some (text, c) =
            rw (better, later) refl in
          subst (IsBest (text ∷ seen)) (sym taken)
            (inl refl, e, (self-NotAfter c text e, raise best c seen later all))
      | inr (inl same) ↦
          let left : better (some (best_text, best)) text (some c) ≡ some (best_text, best) =
            rw (better, same) refl in
          subst (IsBest (text ∷ seen)) (sym left)
            (inr found, f, (one-NotAfter best c text e (λ g. cc (same, g)), all))
      | inl before ↦
          let left : better (some (best_text, best)) text (some c) ≡ some (best_text, best) =
            rw (better, before) refl in
          subst (IsBest (text ∷ seen)) (sym left)
            (inr found, f, (one-NotAfter best c text e (λ g. cc (before, g)), all))
    ]

best_from-IsBest :
    (seen texts : List Bytes) (best : Option (Bytes × Semver))
    → IsBest seen best
    → IsBest (reverse_onto seen texts) (best_from best texts)
unfolding best_from
best_from-IsBest seen [] best h = h
best_from-IsBest seen (text ∷ texts) best h =
    best_from-IsBest (text ∷ seen) texts (better best text (semver_parse text))
      (better-IsBest seen best text (semver_parse text) refl h)

reverse_onto-All :
    (P : Bytes → Type 0) (seen xs : List Bytes)
    → All P (reverse_onto seen xs)
    → All P seen × All P xs
reverse_onto-All P seen [] h = (h, tt)
reverse_onto-All P seen (x ∷ xs) h =
    let (k, hs) = reverse_onto-All P (x ∷ seen) xs h in (k.1, (k.0, hs))

reverse_onto-Some :
    (P : Bytes → Type 0) (seen xs : List Bytes)
    → Some P (reverse_onto seen xs)
    → Some P seen ⊎ Some P xs
reverse_onto-Some P seen [] h = inl h
reverse_onto-Some P seen (x ∷ xs) h = elim (reverse_onto-Some P (x ∷ seen) xs h) [
  | inl (inl k) ↦ inr (inl k)
  | inl (inr k) ↦ inl k
  | inr k ↦ inr (inr k)
]

fits :
    (b : Bool) (text : Bytes) {best : Bytes}
    → (if b then some text else none) ≡ some best
    → text ≡ best
fits true text h = some_eq h
fits false text h = absurd (cc h)

-- What `semver_highest` writes is one of the texts and a version, and no text that is a version
-- comes after it.
pub semver_highest_lem :
    (versions : List Bytes) (out_size : ℕ) {best : Bytes}
    → semver_highest versions out_size ≡ some best
    → (v : Semver) × (semver_parse best ≡ some v)
      × Some (λ u. u ≡ best) versions
      × All (NotAfter v) versions
unfolding semver_highest
semver_highest_lem versions out_size {best} e =
    let ((text, v), f, g) = >>=-eq-some (best_from none versions) _ e in
    let same : text ≡ best = fits (ltb 0 (length text) && ltb (length text) out_size) text g in
    let (found, parsed, all) =
      subst (IsBest (reverse_onto [] versions)) f (best_from-IsBest [] versions none tt) in
    let at = subst (λ t. Some (λ u. u ≡ t) (reverse_onto [] versions)) same found in
    (
      v,
      subst (λ t. semver_parse t ≡ some v) same parsed,
      elim (reverse_onto-Some (λ u. u ≡ best) [] versions at) [ inl k ↦ absurd k | inr k ↦ k ],
      (reverse_onto-All (NotAfter v) [] versions all).1,
    )

not_empty : (text : Bytes) (v : Semver) → semver_parse text ≡ some v → ltb 0 (length text) ≡ true
unfolding semver_parse
not_empty [] v h = absurd (cc h)
not_empty (c ∷ text) v h = ground arith

Some-All :
    (P : Bytes → Type 0) (xs : List Bytes) (x : Bytes) → Some (λ u. u ≡ x) xs → All P xs → P x
Some-All P [] x h k = absurd h
Some-All P (y ∷ xs) x (inl e) k = subst P e k.0
Some-All P (y ∷ xs) x (inr h) k = Some-All P xs x h k.1

-- Where every text fits, `semver_highest` comes back with nothing only if no text is a version.
pub semver_highest-none :
    (versions : List Bytes) (out_size : ℕ)
    → All (λ text. length text < out_size) versions
    → semver_highest versions out_size ≡ none
    → All (λ text. semver_parse text ≡ none) versions
unfolding semver_highest
semver_highest-none versions out_size short e =
    let b = best_from-IsBest [] versions none tt in
    elim (Option-cases (best_from none versions)) [
      | inl f ↦
          (reverse_onto-All (λ text. semver_parse text ≡ none) [] versions
            (subst (IsBest (reverse_onto [] versions)) f b)).1
      | inr ((text, v), f) ↦
          let (found, parsed, _) = subst (IsBest (reverse_onto [] versions)) f b in
          let member : Some (λ u. u ≡ text) versions =
            elim (reverse_onto-Some (λ u. u ≡ text) [] versions found) [
              | inl k ↦ absurd k
              | inr k ↦ k
            ] in
          let fit : (ltb 0 (length text) && ltb (length text) out_size) ≡ true =
            and_intro (ltb 0 (length text)) (ltb (length text) out_size) (not_empty text v parsed) (
              lt→ltb (length text) out_size
                (Some-All (λ t. length t < out_size) versions text member short)) in
          absurd (cc (rw (semver_highest, f, fit) at e))
    ]

newest_first_flips : (a b : Option Semver) → newest_first b a ≡ flip (newest_first a b)
newest_first_flips none none = refl
newest_first_flips none (some b) = refl
newest_first_flips (some a) none = refl
newest_first_flips (some a) (some b) = semver_compare-IsLawful.flips b a

newest_first_trans :
    (a b c : Option Semver)
    → newest_first a b ≡ Ordering.lt
    → newest_first b c ≡ Ordering.lt
    → newest_first a c ≡ Ordering.lt
newest_first_trans none none c h k = absurd (cc h)
newest_first_trans none (some b) c h k = absurd (cc h)
newest_first_trans (some a) none none h k = absurd (cc k)
newest_first_trans (some a) none (some c) h k = absurd (cc k)
newest_first_trans (some a) (some b) none h k = refl
newest_first_trans (some a) (some b) (some c) h k = semver_compare-IsLawful.trans c b a k h

newest_first_same :
    (a b c : Option Semver) → newest_first a b ≡ Ordering.eq → newest_first a c ≡ newest_first b c
newest_first_same none none c h = refl
newest_first_same none (some b) c h = absurd (cc h)
newest_first_same (some a) none c h = absurd (cc h)
newest_first_same (some a) (some b) none h = refl
newest_first_same (some a) (some b) (some c) h =
    sym (same_right semver_compare c b a semver_compare-IsLawful h)

IsLawful-newest_first : IsLawful newest_first
IsLawful-newest_first = record {
  flips = newest_first_flips;
  trans = newest_first_trans;
  same = newest_first_same;
}

-- The order that `semver_sort_desc` hands to `qsort` is a total preorder of texts, as `qsort`
-- requires.
pub compare_newest_first-IsLawful : IsLawful compare_newest_first
unfolding compare_newest_first
compare_newest_first-IsLawful = IsLawful-on newest_first semver_parse IsLawful-newest_first
