-- ===== src/Util/Text.antt =====
-- src/util/text.c: columns of UTF-8 text on a terminal. A text is not NULL here; what is written to
-- `out` is the value.
pub mod Expanded
pub mod Elided
mod Tests
use molto.Base.{
  ℕ, zero, suc, ◌+◌, ◌-◌, ◌/◌, ◌%◌, ◌≡◌, Bool, true, false, Option, none, some, List, [], ◌∷◌, ◌++◌,
  length, take, drop, replicate, get_or, min, ltb, ◌==◌, if◌then◌else◌, Bytes,
}

-- The top two bits of the byte are those of UTF8_CONTINUATION_MARK.
unfoldable pub is_continuation : ℕ → Bool
is_continuation byte = byte / 64 % 4 == 2

-- What a byte that is no tab adds to the column.
unfoldable pub step : ℕ → ℕ
unfolding is_continuation
step byte = if is_continuation byte then 0 else 1

unfoldable pub text_columns : Bytes → ℕ → ℕ
unfolding step
text_columns s zero = 0
text_columns [] (suc bytes) = 0
text_columns (c ∷ s) (suc bytes) = step c + text_columns s bytes

abbrev pub tab : ℕ
tab = b'\t'

unfoldable pub tab_advance : ℕ → ℕ → ℕ
tab_advance column tab_width = tab_width - column % tab_width

-- The loop of `text_column_of_byte` from a column on.
unfoldable pub column_from : ℕ → ℕ → Bytes → ℕ → ℕ
unfolding step tab_advance
column_from column tab_width s zero = column
column_from column tab_width [] (suc offset) = column
column_from column tab_width (c ∷ s) (suc offset) =
    column_from (if c == tab then column + tab_advance column tab_width else column + step c)
      tab_width s offset

unfoldable pub text_column_of_byte : Bytes → ℕ → ℕ → ℕ
unfolding column_from
text_column_of_byte s offset tab_width =
    if tab_width == 0 then 0 else column_from 0 tab_width s offset

-- The loop of `text_expand_tabs`; `room` is `out_size - 1 - used`.
unfoldable pub expand_from : ℕ → ℕ → ℕ → Bytes → Bytes
unfolding step tab_advance
expand_from room column tab_width [] = []
expand_from room column tab_width (c ∷ s) =
    let width = tab_advance column tab_width in
    let spaces = min width room in
    let tabbed =
      replicate spaces b' ' ++ expand_from (room - spaces) (column + width) tab_width s in
    let plain = c ∷ expand_from (room - 1) (column + step c) tab_width s in
    if room == 0 then [] else if c == tab then tabbed else plain

-- `none` where nothing is written.
unfoldable pub text_expand_tabs : Bytes → ℕ → ℕ → Option Bytes
unfolding expand_from
text_expand_tabs s tab_width zero = none
text_expand_tabs s tab_width (suc room) =
    some (if tab_width == 0 then [] else expand_from room 0 tab_width s)

-- The three bytes of ELLIPSIS.
abbrev pub ellipsis : Bytes
ellipsis = 0xe2 ∷ 0x80 ∷ 0xa6 ∷ []

unfoldable pub whole_prefix : Bytes → ℕ → ℕ
unfolding is_continuation
whole_prefix s zero = 0
whole_prefix s (suc bytes) =
    let shorter = whole_prefix s bytes in
    if is_continuation (get_or s (suc bytes) 0) then shorter else suc bytes

-- `left` is `len - from`.
unfoldable pub whole_suffix : Bytes → ℕ → ℕ → ℕ
unfolding is_continuation
whole_suffix s from zero = from
whole_suffix s from (suc left) =
    let later = whole_suffix s (from + 1) left in
    if is_continuation (get_or s from 0) then later else from

unfoldable pub text_elide_middle : Bytes → ℕ → Option Bytes
unfolding whole_prefix whole_suffix
text_elide_middle s zero = none
text_elide_middle s (suc room) =
    let budget = room - 3 in
    let head = whole_prefix s (budget / 2) in
    let from = length s - (budget - budget / 2) in
    let tail_from = whole_suffix s from (length s - from) in
    some (
      if ltb (length s) (suc room)
      then s
      else if ltb room 5
      then take (whole_prefix s room) s
      else take head s ++ (ellipsis ++ drop tail_from s))
