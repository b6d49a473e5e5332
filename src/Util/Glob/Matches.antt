-- ===== src/Util/Glob/Matches.antt =====
-- What it means for a text to match a pattern of src/util/glob.c, with no search order in it.
use molto.Base.{
  ℕ, ◌≤◌, ◌<◌, ◌≡◌, ◌≢◌, refl, sym, subst, true, false, ◌||◌, Option, none, some, [], ◌∷◌, length,
  ◌==◌, if◌then◌else◌, Bytes, Bool-cases, inl, inr, arith, ◌↔◌,
}
use molto.Util.Glob.{
  star, backslash, longer, scan_close, after_negation, bracket_end, bracket_holds, literal_matches,
  set_matches, item_matches, only_stars, starts_with_star,
}

pub data Matches : Bytes → Bytes → Type 0 where
  done : Matches [] []
  leave : {p t : Bytes} → Matches p t → Matches (star ∷ p) t
  take : {p t : Bytes} {c : ℕ} → Matches (star ∷ p) t → Matches (star ∷ p) (c ∷ t)
  item :
      {p q t : Bytes} {c : ℕ}
      → starts_with_star p ≡ false
      → item_matches p c ≡ some q
      → Matches q t
      → Matches p (c ∷ t)

-- Where the first item of a pattern ends, whatever it is compared with.
literal_rest : ℕ → Bytes → Bytes
literal_rest x [] = []
literal_rest x (y ∷ s) = if x == backslash then s else y ∷ s

set_rest : Bytes → Option (Bytes × Bytes) → Bytes
set_rest s none = literal_rest b'[' s
set_rest s (some (_, after)) = after

pub item_rest : Bytes → Bytes
unfolding literal_rest set_rest
item_rest [] = []
item_rest (x ∷ s) =
    if x == b'?' then s else if x == b'[' then set_rest s (bracket_end s) else literal_rest x s

literal_rest_lem :
    (x : ℕ) (s : Bytes) (c : ℕ) {q : Bytes}
    → literal_matches x s c ≡ some q
    → (q ≡ literal_rest x s) × (length q ≤ length s)
unfolding literal_matches literal_rest
literal_rest_lem x [] c e = ground arith
literal_rest_lem x (y ∷ s) c e = ground arith

longer-length :
    (front : Bytes) (o : Option (Bytes × Bytes)) (n : ℕ)
    → ((content after : Bytes) → o ≡ some (content, after) → length after ≤ n)
    → (content after : Bytes) → longer front o ≡ some (content, after)
    → length after ≤ n
longer-length front none n h content after e = cc
longer-length front (some (c, a)) n h content after e = ground (arith, h c a)

scan_close-length :
    (s content after : Bytes) → scan_close s ≡ some (content, after) → length after ≤ length s
unfolding scan_close
scan_close-length [] content after e = cc
scan_close-length (c ∷ []) content after e = ground arith
scan_close-length (c ∷ d ∷ s) content after e = ground (
  arith,
  longer-length (c ∷ d ∷ []) (scan_close s) (length s) (scan_close-length s) content after,
  longer-length (c ∷ []) (scan_close (d ∷ s)) (length (d ∷ s)) (scan_close-length (d ∷ s)) content
      after,
)

after_negation-length :
    (s content after : Bytes) → after_negation s ≡ some (content, after) → length after ≤ length s
unfolding after_negation
after_negation-length [] content after e = scan_close-length [] content after e
after_negation-length (c ∷ s) content after e = ground (
  arith,
  longer-length (c ∷ []) (scan_close s) (length s) (scan_close-length s) content after,
  scan_close-length (c ∷ s) content after,
)

bracket_end-length :
    (s content after : Bytes) → bracket_end s ≡ some (content, after) → length after ≤ length s
unfolding bracket_end
bracket_end-length [] content after e = after_negation-length [] content after e
bracket_end-length (c ∷ s) content after e = elim (Bool-cases (c == b'!' || c == b'^')) [
  | inl neg ↦
      longer-length (c ∷ []) (after_negation s) (length (c ∷ s))
        (λ u v f. let h = after_negation-length s u v f in omega arith) content after (rw neg at e)
  | inr pos ↦ after_negation-length (c ∷ s) content after (rw pos at e)
]

set_rest_lem :
    (s : Bytes) (c : ℕ) (o : Option (Bytes × Bytes)) {q : Bytes}
    → o ≡ bracket_end s
    → set_matches s c o ≡ some q
    → (q ≡ set_rest s o) × (length q ≤ length s)
unfolding set_rest
set_rest_lem s c none b e = literal_rest_lem b'[' s c e
set_rest_lem s c (some (content, after)) b e =
    let short = bracket_end-length s content after (sym b) in
    elim (Bool-cases (bracket_holds content c)) [
      | inl holds ↦ ground arith
      | inr fails ↦ ground arith
    ]

-- The byte decides whether the item matches, never where it ends, and an item has a byte at least.
pub item_rest_lem :
    (p : Bytes) (c : ℕ) {q : Bytes}
    → item_matches p c ≡ some q
    → (q ≡ item_rest p) × (length q < length p)
unfolding item_matches item_rest
item_rest_lem [] c e = cc
item_rest_lem (x ∷ s) c e = elim (Bool-cases (x == b'?')) [
  | inl any ↦ let f = rw any at e in rw any (cc, ground arith)
  | inr other ↦ elim (Bool-cases (x == b'[')) [
    | inl set ↦
        let (u, v) = set_rest_lem s c (bracket_end s) refl (rw (other, set) at e) in
        rw (other, set) (u, omega arith)
    | inr lit ↦
        let (u, v) = literal_rest_lem x s c (rw (other, lit) at e) in
        rw (other, lit) (u, omega arith)
  ]
]

Matches→only_stars : {p : Bytes} → Matches p [] → only_stars p ≡ true
unfolding only_stars
Matches→only_stars done = refl
Matches→only_stars (leave d) = Matches→only_stars d

only_stars→Matches : (p : Bytes) → only_stars p ≡ true → Matches p []
unfolding only_stars
only_stars→Matches [] h = done
only_stars→Matches (x ∷ p) h = elim (Bool-cases (x == star)) [
  | inl e ↦ let f : x ≡ star = ground arith in rw f (leave (only_stars→Matches p (rw e at h)))
  | inr e ↦ cc (rw e at h)
]

pub only_stars_iff : (p : Bytes) → (only_stars p ≡ true) ↔ Matches p []
only_stars_iff p = (only_stars→Matches p, Matches→only_stars)

module _ {p : Bytes} where
  pub star_at_end : Matches (star ∷ p) [] → Matches p []
  star_at_end (leave d) = d

  pub star_must_take :
      {c : ℕ} {t : Bytes} → Matches (star ∷ p) (c ∷ t) → ¬ Matches p (c ∷ t) → Matches (star ∷ p) t
  star_must_take (leave d) n = absurd (n d)
  star_must_take (take d) n = d
  star_must_take (item s _ _) n = absurd (cc s)

  pub second_star : {t : Bytes} → Matches (star ∷ star ∷ p) t → Matches (star ∷ p) t
  second_star (leave d) = d
  second_star (take d) = take (second_star d)
  second_star (item s _ _) = absurd (cc s)

-- At an item, a text matches only if the item takes its first byte.
pub item_inv :
    {p : Bytes} {c : ℕ} {t : Bytes}
    → starts_with_star p ≡ false
    → Matches p (c ∷ t)
    → (q : Bytes) × (item_matches p c ≡ some q) × Matches q t
item_inv s (leave d) = absurd (cc s)
item_inv s (take d) = absurd (cc s)
item_inv s (item _ e d) = (_, e, d)

pub no_item_left : {p : Bytes} → starts_with_star p ≡ false → Matches p [] → p ≡ []
no_item_left s done = refl
no_item_left s (leave d) = absurd (cc s)

-- Why the greedy choice loses nothing: where an item takes a byte, what is behind the star may
-- begin one byte and one item later.
pub star_absorb :
    {p : Bytes} {c : ℕ} (t : Bytes)
    → starts_with_star p ≡ false
    → p ≢ []
    → Matches (star ∷ p) (c ∷ t)
    → Matches (star ∷ item_rest p) t
star_absorb {p} t s ne (leave d) =
    let (r, f, rest) = item_inv s d in leave (subst (λ u. Matches u t) (item_rest_lem p _ f).0 rest)
star_absorb t s ne (item f _ _) = absurd (cc f)
star_absorb [] s ne (take d) = absurd (ne (no_item_left s (star_at_end d)))
star_absorb (c' ∷ t) s ne (take d) = take (star_absorb t s ne d)
