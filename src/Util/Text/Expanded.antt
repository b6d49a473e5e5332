-- ===== src/Util/Text/Expanded.antt =====
-- What `text_expand_tabs` of src/util/text.c writes.
use molto.Base.{
  ℕ, zero, suc, ◌+◌, ◌-◌, ◌≤◌, ◌<◌, ◌≡◌, ◌≢◌, refl, subst, some, [], ◌∷◌, ◌++◌, length,
  length-append, length-replicate, replicate, min, ◌==◌, ==_iff, Bytes, All, All-append, Bool-cases,
  inl, inr, arith, some_eq,
}
use molto.Util.Text.{
  is_continuation, step, text_columns, tab, tab_advance, column_from, text_column_of_byte,
  expand_from, text_expand_tabs,
}

spaces-HaveNoTab : (n : ℕ) → All (λ c. c ≢ tab) (replicate n b' ')
spaces-HaveNoTab zero = tt
spaces-HaveNoTab (suc n) = ((omega arith), spaces-HaveNoTab n)

-- The columns of a whole text.
abbrev pub width_of : Bytes → ℕ
width_of s = text_columns s (length s)

width_of-spaces : (n : ℕ) (s : Bytes) → width_of (replicate n b' ' ++ s) ≡ n + width_of s
unfolding text_columns step is_continuation
width_of-spaces zero s = omega arith
width_of-spaces (suc n) s = omega (arith, width_of-spaces n s)

-- What a run of the loop gives: it keeps to its room and writes no tab, and where it is not cut
-- short its columns are those that the offset at the end has.
abbrev Expands : ℕ → ℕ → ℕ → Bytes → Bytes → Type 0
Expands room column tab_width s out =
    (length out ≤ room)
    × All (λ c. c ≢ tab) out
    × (length out < room → column + width_of out ≡ column_from column tab_width s (length s))

expand_from_lem :
    (room column tab_width : ℕ) (s : Bytes)
    → Expands room column tab_width s (expand_from room column tab_width s)
unfolding expand_from column_from text_columns
expand_from_lem room column tab_width [] = ((omega arith), tt, λ h. omega arith)
expand_from_lem room column tab_width (c ∷ s) = elim (Bool-cases (room == 0)) [
  | inl full ↦ rw (expand_from, full) ((omega arith), tt, λ h. absurd (ground (arith, full, h)))
  | inr space ↦
      let r : room ≢ 0 = λ e. cc (space, (==_iff room 0).1 e) in
      elim (Bool-cases (c == tab)) [
        | inl is_tab ↦
            let width = tab_advance column tab_width in
            let n = min width room in
            let (l, t, w) = expand_from_lem (room - n) (column + width) tab_width s in
            let out = expand_from (room - n) (column + width) tab_width s in
            let blanks : Bytes = replicate n b' ' in
            let long : length blanks ≡ n = length-replicate {A = ℕ} n b' ' in
            rw (expand_from, column_from, space, is_tab)
              (
                (omega (arith, l, length-append blanks out, long)),
                All-append (λ c. c ≢ tab) blanks out (spaces-HaveNoTab n) t,
                λ h.
                    let short : length out < room - n =
                      omega (arith, h, length-append blanks out, long) in
                    let fit : n ≡ width = omega (arith, short) in
                    omega (arith, w short, width_of-spaces n out, fit),
              )
        | inr other ↦
            let (l, t, w) = expand_from_lem (room - 1) (column + step c) tab_width s in
            rw (expand_from, column_from, space, other)
              (
                (omega (arith, l, r)),
                ((λ e. cc (other, (==_iff c tab).1 e)), t),
                λ h. omega (arith, w (omega (arith, h, r))),
              )
      ]
]

-- What `text_expand_tabs` writes fits the buffer with its terminator and has no tab. Where room is
-- left, it is as wide as `text_column_of_byte` says the end of the text is far in.
pub text_expand_tabs_lem :
    (s : Bytes) (tab_width size : ℕ) {out : Bytes}
    → text_expand_tabs s tab_width size ≡ some out
    → (length out < size)
      × All (λ c. c ≢ tab) out
      × (length out + 1 < size
          → text_columns out (length out) ≡ text_column_of_byte s (length s) tab_width)
unfolding text_expand_tabs text_column_of_byte text_columns
text_expand_tabs_lem s tab_width zero e = absurd (cc e)
text_expand_tabs_lem s tab_width (suc room) {out} e = elim (Bool-cases (tab_width == 0)) [
  | inl no_width ↦
      subst
        (λ o.
          (length o < suc room)
          × All (λ c. c ≢ tab) o
          × (length o + 1 < suc room
              → text_columns o (length o) ≡ text_column_of_byte s (length s) tab_width))
        (some_eq (rw (text_expand_tabs, no_width) at e))
        ((omega arith), tt, λ h. rw (text_column_of_byte, no_width) refl)
  | inr wide ↦
      let (l, t, w) = expand_from_lem room 0 tab_width s in
      subst
        (λ o.
          (length o < suc room)
          × All (λ c. c ≢ tab) o
          × (length o + 1 < suc room
              → text_columns o (length o) ≡ text_column_of_byte s (length s) tab_width))
        (some_eq (rw (text_expand_tabs, wide) at e))
        (
          (omega (arith, l)),
          t,
          λ h. rw (text_column_of_byte, wide) (omega (arith, w (omega (arith, h)))),
        )
]
