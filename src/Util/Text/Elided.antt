-- ===== src/Util/Text/Elided.antt =====
-- What `text_elide_middle` of src/util/text.c leaves of a text.
use molto.Base.{
  ℕ, zero, suc, ◌+◌, ◌-◌, ◌/◌, ◌≤◌, ◌<◌, ◌≡◌, refl, subst, false, some, ◌++◌, length, length-append,
  length-take, length-drop, take, drop, get_or, ltb, ltb→lt, ◌⊎◌, inl, inr, Bytes, Bool-cases,
  arith, some_eq,
}
use molto.Util.Text.{is_continuation, ellipsis, whole_prefix, whole_suffix, text_elide_middle}

-- A place between two characters, or an end of the text.
abbrev pub IsBoundary : Bytes → ℕ → Type 0
IsBoundary s n = (n ≡ 0) ⊎ (length s ≤ n) ⊎ (is_continuation (get_or s n 0) ≡ false)

whole_prefix_lem : (s : Bytes) (n : ℕ) → (whole_prefix s n ≤ n) × IsBoundary s (whole_prefix s n)
unfolding whole_prefix
whole_prefix_lem s zero = ((omega arith), inl refl)
whole_prefix_lem s (suc n) = elim (Bool-cases (is_continuation (get_or s (suc n) 0))) [
  | inl e ↦ let (l, b) = whole_prefix_lem s n in rw (whole_prefix, e) ((omega (arith, l)), b)
  | inr e ↦ rw (whole_prefix, e) ((omega arith), inr (inr e))
]

whole_suffix_lem :
    (s : Bytes) (from left : ℕ)
    → length s ≤ from + left
    → (from ≤ whole_suffix s from left) × IsBoundary s (whole_suffix s from left)
unfolding whole_suffix
whole_suffix_lem s from zero h = ((omega arith), inr (inl (omega arith)))
whole_suffix_lem s from (suc left) h = elim (Bool-cases (is_continuation (get_or s from 0))) [
  | inl e ↦
      let (l, b) = whole_suffix_lem s (from + 1) left (omega arith) in
      rw (whole_suffix, e) ((omega (arith, l)), b)
  | inr e ↦ rw (whole_suffix, e) ((omega arith), inr (inr e))
]

-- The ways in which a text is shown in `size` bytes, the terminator included: whole, as a prefix
-- where not even the ellipsis has room, or as a prefix and a suffix around the ellipsis. A text is
-- cut between characters only.
pub data Shown (s : Bytes) (size : ℕ) : Bytes → Type 0 where
  whole : length s < size → Shown s size s
  prefix :
      (n : ℕ) → size ≤ length s → size < 6 → n < size → IsBoundary s n → Shown s size (take n s)
  around :
      (n m : ℕ)
      → size ≤ length s
      → n ≤ m
      → IsBoundary s n
      → IsBoundary s m
      → Shown s size (take n s ++ (ellipsis ++ drop m s))

-- A text that is elided to a buffer fits it with its terminator, is shown whole where it fits, and
-- is otherwise cut between characters.
pub text_elide_middle_lem :
    (s : Bytes) (size : ℕ) {out : Bytes}
    → text_elide_middle s size ≡ some out
    → (length out < size) × Shown s size out
unfolding text_elide_middle
text_elide_middle_lem s zero e = absurd (cc e)
text_elide_middle_lem s (suc room) {out} e = elim (Bool-cases (ltb (length s) (suc room))) [
  | inl fits ↦
      let h = ltb→lt (length s) (suc room) fits in
      subst (λ o. (length o < suc room) × Shown s (suc room) o)
        (some_eq (rw (text_elide_middle, fits) at e)) (h, whole h)
  | inr long ↦
      let h : suc room ≤ length s = ground (arith, long) in
      elim (Bool-cases (ltb room 5)) [
        | inl small ↦
            let (l, b) = whole_prefix_lem s room in
            let k = ltb→lt room 5 small in
            subst (λ o. (length o < suc room) × Shown s (suc room) o)
              (some_eq (rw (text_elide_middle, long, small) at e))
              (
                (omega (arith, l, length-take (whole_prefix s room) s)),
                prefix (whole_prefix s room) h (omega (arith, k)) (omega (arith, l)) b,
              )
        | inr roomy ↦
            let k : 5 ≤ room = ground (arith, roomy) in
            let budget = room - 3 in
            let n = whole_prefix s (budget / 2) in
            let from = length s - (budget - budget / 2) in
            let m = whole_suffix s from (length s - from) in
            let (l, b) = whole_prefix_lem s (budget / 2) in
            let (l', b') = whole_suffix_lem s from (length s - from) (omega arith) in
            subst (λ o. (length o < suc room) × Shown s (suc room) o)
              (some_eq (rw (text_elide_middle, long, roomy) at e))
              (
                (omega (
                  arith,
                  l,
                  l',
                  h,
                  k,
                  length-take n s,
                  length-drop m s,
                  length-append (take n s) (ellipsis ++ drop m s),
                )),
                around n m h (omega (arith, l, l', h, k)) b b',
              )
      ]
]
