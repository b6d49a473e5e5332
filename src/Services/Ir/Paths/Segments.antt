-- ===== src/Services/Ir/Paths/Segments.antt =====
-- What `normalise` of src/services/ir_validate.c returns: a path with no empty, `.` or inner `..`
-- segment.
use molto.Base.{
  ℕ, zero, suc, ◌≡◌, ◌≢◌, refl, sym, ap, ◌∙◌, subst, Bool, true, false, ◌||◌, some, List, [], ◌∷◌,
  ◌++◌, append-nil, append_assoc, length, leb, ltb, ◌==◌, if◌then◌else◌, Bytes, bytes_eq,
  bytes_eq_iff, All, All-append, All-map, Bool-cases, inl, inr, arith, >>=-eq-some, some_eq,
}
use molto.Services.Ir.Paths.{
  slash, ir_max_segments, fs_path_is_absolute, last_is, put_segment, put_segments, skip_slashes,
  take_segment, dot, dot_dot, Walked, climb, step_segment, walk_segments, repeat_dot_dot,
  reversed_onto, write_walked, no_segments, normalise, or_here,
}

abbrev pub HasNoSlash : Bytes → Type 0
HasNoSlash s = All (λ c. c ≢ slash) s

-- A segment, and one that names something below.
abbrev pub IsSegment : Bytes → Type 0
IsSegment s = (s ≢ []) × HasNoSlash s

abbrev pub IsName : Bytes → Type 0
IsName s = IsSegment s × (s ≢ dot) × (s ≢ dot_dot)

-- Segments with a slash in front of each.
abbrev pub slashed : List Bytes → Bytes
slashed [] = []
slashed (s ∷ ss) = slash ∷ (s ++ slashed ss)

-- The text of an absolute and of a relative path.
abbrev pub rendered : Bool → List Bytes → Bytes
rendered true [] = slash ∷ []
rendered true (s ∷ ss) = slashed (s ∷ ss)
rendered false [] = dot
rendered false (s ∷ ss) = s ++ slashed ss

-- A text that is a path in its shortest form: the `..` come first and only on a relative path, and
-- the other segments are names.
pub record Canonical (absolute : Bool) (text : Bytes) : Type 0 where
  pub climbs : ℕ
  pub names : List Bytes
  pub are_names : All IsName names
  pub no_climb : absolute ≡ true → climbs ≡ 0
  pub reads : text ≡ rendered absolute (repeat_dot_dot climbs ++ names)

pub last_is-append :
    (x : ℕ) (out s : Bytes) → s ≢ [] → All (λ c. c ≢ x) s → last_is x (out ++ s) ≡ false
unfolding last_is
last_is-append x [] [] ne h = absurd (ne refl)
last_is-append x [] (c ∷ []) ne h = ground (arith, h.0)
last_is-append x [] (c ∷ d ∷ s) ne h = last_is-append x [] (d ∷ s) (λ e. cc e) h.1
last_is-append x (c ∷ []) [] ne h = absurd (ne refl)
last_is-append x (c ∷ []) (d ∷ s) ne h = last_is-append x [] (d ∷ s) ne h
last_is-append x (c ∷ d ∷ out) s ne h = last_is-append x (d ∷ out) s ne h

put_segment_lem :
    (size : ℕ) (out s : Bytes) {r : Bytes}
    → out ≢ []
    → last_is slash out ≡ false
    → put_segment size out s ≡ some r
    → r ≡ out ++ (slash ∷ s)
unfolding put_segment
put_segment_lem size [] s ne l e = absurd (ne refl)
put_segment_lem size (c ∷ out) s ne l e = ground (arith, append_assoc (c ∷ out) (slash ∷ []) s)

ends_in_segment : (out s : Bytes) → IsSegment s → last_is slash (out ++ (slash ∷ s)) ≡ false
ends_in_segment out s (ne, h) =
    rw (← append_assoc out (slash ∷ []) s) (last_is-append slash (out ++ slash ∷ []) s ne h)

append-ne-nil : (out s : Bytes) (c : ℕ) → out ++ (c ∷ s) ≢ []
append-ne-nil [] s c e = cc e
append-ne-nil (x ∷ out) s c e = cc e

-- Behind a text that does not end in a slash the segments are written with one in front of each.
put_segments_lem :
    (size : ℕ) (out : Bytes) (ss : List Bytes) {r : Bytes}
    → out ≢ []
    → last_is slash out ≡ false
    → All IsSegment ss
    → put_segments size out ss ≡ some r
    → r ≡ out ++ slashed ss
unfolding put_segments
put_segments_lem size out [] ne l h e = rw append-nil (sym (some_eq e))
put_segments_lem size out (s ∷ ss) {r} ne l (hs, h) e =
    let (out', f, g) = >>=-eq-some (put_segment size out s) (λ o. put_segments size o ss) e in
    let same : out' ≡ out ++ (slash ∷ s) = put_segment_lem size out s ne l f in
    let ne' : out' ≢ [] = subst (λ o. o ≢ []) (sym same) (append-ne-nil out s slash) in
    let l' : last_is slash out' ≡ false =
      subst (λ o. last_is slash o ≡ false) (sym same) (ends_in_segment out s hs) in
    put_segments_lem size out' ss ne' l' h g
    ∙ ap (λ o. o ++ slashed ss) same
    ∙ append_assoc out (slash ∷ s) (slashed ss)

-- The first segment goes straight behind nothing, or behind the slash of an absolute path.
put_first :
    (size : ℕ) (absolute : Bool) (s : Bytes) {r : Bytes}
    → put_segment size (if absolute then slash ∷ [] else []) s ≡ some r
    → r ≡ (if absolute then slash ∷ s else s)
unfolding put_segment
put_first size true s e = ground arith
put_first size false s e = ground arith

put-All :
    (size : ℕ) (absolute : Bool) (ss : List Bytes) {r : Bytes}
    → All IsSegment ss
    → put_segments size (if absolute then slash ∷ [] else []) ss ≡ some r
    → or_here r ≡ rendered absolute ss
unfolding put_segments
put-All size true [] h e = ap or_here (sym (some_eq e))
put-All size false [] h e = ap or_here (sym (some_eq e))
put-All size true (s ∷ ss) (hs, h) e =
    let (out', f, g) =
      >>=-eq-some (put_segment size (slash ∷ []) s) (λ o. put_segments size o ss) e in
    let same : out' ≡ slash ∷ s = put_first size true s f in
    let l : last_is slash out' ≡ false =
      subst (λ o. last_is slash o ≡ false) (sym same) (ends_in_segment [] s hs) in
    let ne : out' ≢ [] = λ x. cc in
    ap or_here (put_segments_lem size out' ss ne l h g ∙ ap (λ o. o ++ slashed ss) same)
put-All size false ([] ∷ ss) ((ne, _), h) e = absurd (ne refl)
put-All size false ((c ∷ s) ∷ ss) (hs, h) e =
    let (out', f, g) = >>=-eq-some (put_segment size [] (c ∷ s)) (λ o. put_segments size o ss) e in
    let same : out' ≡ c ∷ s = put_first size false (c ∷ s) f in
    let l : last_is slash out' ≡ false =
      subst (λ o. last_is slash o ≡ false) (sym same) (last_is-append slash [] (c ∷ s) hs.0 hs.1) in
    let ne : out' ≢ [] = λ x. cc in
    ap or_here (put_segments_lem size out' ss ne l h g ∙ ap (λ o. o ++ slashed ss) same)

-- What the walk keeps, and when it climbs.
record WalkInv (absolute : Bool) (w : Walked) : Type 0 where
  are_names : All IsName w.kept
  no_climb : absolute ≡ true → w.climbs ≡ 0

take_segment-HasNoSlash : (s : Bytes) → HasNoSlash (take_segment s).0
unfolding take_segment
take_segment-HasNoSlash [] = tt
take_segment-HasNoSlash (c ∷ s) = elim (Bool-cases (c == slash)) [
  | inl e ↦ rw e tt
  | inr e ↦ rw e ((ground arith), take_segment-HasNoSlash s)
]

climb-WalkInv :
    (absolute : Bool) (kept : List Bytes) (climbs : ℕ)
    → All IsName kept
    → (absolute ≡ true → climbs ≡ 0)
    → WalkInv absolute (climb absolute kept climbs)
climb-WalkInv absolute (x ∷ kept) climbs h k = record { are_names = h.1; no_climb = k }
climb-WalkInv true [] climbs h k = record { are_names = tt; no_climb = k }
climb-WalkInv false [] climbs h k = record { are_names = tt; no_climb = λ e. cc e }

step_segment-WalkInv :
    (absolute : Bool) (w : Walked) (segment : Bytes) {w' : Walked}
    → IsSegment segment
    → WalkInv absolute w
    → step_segment absolute w segment ≡ some w'
    → WalkInv absolute w'
unfolding step_segment
step_segment-WalkInv absolute w segment {w'} h i e = elim (Bool-cases (bytes_eq segment dot)) [
  | inl is_dot ↦ subst (WalkInv absolute) (some_eq (rw is_dot at e)) i
  | inr not_dot ↦ elim (Bool-cases (bytes_eq segment dot_dot)) [
    | inl up ↦
        subst (WalkInv absolute) (some_eq (rw (not_dot, up) at e))
          (climb-WalkInv absolute w.kept w.climbs i.are_names i.no_climb)
    | inr name ↦ elim (Bool-cases (leb ir_max_segments (length w.kept))) [
      | inl many ↦ absurd (cc (rw (not_dot, name, many) at e))
      | inr few ↦
          let ne_dot : segment ≢ dot = λ x. cc (not_dot, (bytes_eq_iff segment dot).1 x) in
          let ne_up : segment ≢ dot_dot = λ x. cc (name, (bytes_eq_iff segment dot_dot).1 x) in
          subst (WalkInv absolute) (some_eq (rw (not_dot, name, few) at e))
            (record { are_names = ((h, ne_dot, ne_up), i.are_names); no_climb = i.no_climb })
    ]
  ]
]

walk_segments-WalkInv :
    (fuel : ℕ) (absolute : Bool) (cursor : Bytes) (w : Walked) {w' : Walked}
    → WalkInv absolute w
    → walk_segments fuel absolute cursor w ≡ some w'
    → WalkInv absolute w'
unfolding walk_segments
walk_segments-WalkInv zero absolute cursor w i e = subst (WalkInv absolute) (some_eq e) i
walk_segments-WalkInv (suc fuel) absolute cursor w {w'} i e =
    let segment = (take_segment (skip_slashes cursor)).0 in
    let rest = (take_segment (skip_slashes cursor)).1 in
    elim (Bool-cases (length segment == 0)) [
      | inl done ↦ subst (WalkInv absolute) (some_eq (rw done at e)) i
      | inr more ↦
          let (w1, f, g) =
            >>=-eq-some (step_segment absolute w segment) (walk_segments fuel absolute rest)
              (rw more at e) in
          let ne : segment ≢ [] = λ x. cc (more, ap (λ s. length s == 0) x) in
          walk_segments-WalkInv fuel absolute rest w1
            (step_segment-WalkInv absolute w segment
              (ne, take_segment-HasNoSlash (skip_slashes cursor)) i f)
            g
    ]

reversed_onto-All :
    (P : Bytes → Type 0) (out xs : List Bytes) → All P out → All P xs → All P (reversed_onto out xs)
unfolding reversed_onto
reversed_onto-All P out [] h k = h
reversed_onto-All P out (x ∷ xs) h k = reversed_onto-All P (x ∷ out) xs (k.0, h) k.1

repeat_dot_dot-All : (n : ℕ) → All IsSegment (repeat_dot_dot n)
unfolding repeat_dot_dot
repeat_dot_dot-All zero = tt
repeat_dot_dot-All (suc n) =
    (((λ e. cc e), ((omega arith), ((omega arith), tt))), repeat_dot_dot-All n)

write_walked-Canonical :
    (size : ℕ) (absolute : Bool) (w : Walked) {r : Bytes}
    → WalkInv absolute w
    → write_walked size absolute w ≡ some r
    → Canonical absolute r
unfolding write_walked
write_walked-Canonical size absolute w i e =
    let names = reversed_onto [] w.kept in
    let segments = repeat_dot_dot w.climbs ++ names in
    let first : Bytes = if absolute then slash ∷ [] else [] in
    let (out, f, g) = >>=-eq-some (put_segments size first segments) (λ o. some (or_here o)) e in
    let all_names = reversed_onto-All IsName [] w.kept tt i.are_names in
    let good =
      All-append IsSegment (repeat_dot_dot w.climbs) names (repeat_dot_dot-All w.climbs)
        (All-map IsName IsSegment (λ s h. h.0) names all_names) in
    record {
      climbs = w.climbs;
      names = names;
      are_names = all_names;
      no_climb = i.no_climb;
      reads = sym (some_eq g) ∙ put-All size absolute segments good f;
    }

-- What `normalise` writes, for any path and any size of buffer, is a path in its shortest form:
-- no empty and no `.` segment, `..` only in front and only on a relative path. It is absolute just
-- when the path it was given is.
pub normalise-Canonical :
    (size : ℕ) (path : Bytes) {r : Bytes}
    → normalise size path ≡ some r
    → Canonical (fs_path_is_absolute path) r
unfolding normalise write_walked
normalise-Canonical size path {r} e = elim (Bool-cases (length path == 0 || ltb size 2)) [
  | inl bad ↦ absurd (cc (rw bad at e))
  | inr good ↦
      let absolute = fs_path_is_absolute path in
      let (w, f, g) =
        >>=-eq-some (walk_segments (length path) absolute path no_segments)
          (write_walked size absolute) (rw good at e) in
      let i =
        walk_segments-WalkInv (length path) absolute path no_segments
          (record { are_names = tt; no_climb = λ x. refl }) f in
      write_walked-Canonical size absolute w i g
]
