-- ===== src/Util/Glob.antt =====
-- src/util/glob.c: shell patterns over C strings. A pointer into the pattern or the text is the
-- bytes from there to the terminator, so reading the terminator is reading past the last byte.
pub mod Matches
pub mod Decides
pub mod Plain
mod Tests
use molto.Base.{
  ℕ, zero, suc, ◌+◌, ◌*◌, Bool, true, false, not, ◌&&◌, ◌||◌, Option, none, some, List, [], ◌∷◌,
  ◌++◌, length, leb, ◌==◌, if◌then◌else◌, Bytes,
}

abbrev pub star : ℕ
star = b'*'

abbrev pub backslash : ℕ
backslash = 92

abbrev is_negation : ℕ → Bool
is_negation c = c == b'!' || c == b'^'

-- More bytes in front of a bracket's content.
abbrev pub longer : Bytes → Option (Bytes × Bytes) → Option (Bytes × Bytes)
longer front none = none
longer front (some (content, after)) = some (front ++ content, after)

-- The `while` loop of `bracket_end`: the bytes up to the closing bracket, and those behind it.
unfoldable pub scan_close : Bytes → Option (Bytes × Bytes)
scan_close [] = none
scan_close (c ∷ []) = if c == b']' then some ([], []) else none
scan_close (c ∷ d ∷ s) =
    let escaped = longer (c ∷ d ∷ []) (scan_close s) in
    let plain = longer (c ∷ []) (scan_close (d ∷ s)) in
    if c == b']' then some ([], d ∷ s) else if c == backslash then escaped else plain

-- A closing bracket that stands first is literal.
unfoldable pub after_negation : Bytes → Option (Bytes × Bytes)
unfolding scan_close
after_negation [] = scan_close []
after_negation (c ∷ s) = if c == b']' then longer (c ∷ []) (scan_close s) else scan_close (c ∷ s)

-- `bracket_end` on the bytes behind the opening bracket.
unfoldable pub bracket_end : Bytes → Option (Bytes × Bytes)
unfolding after_negation
bracket_end [] = after_negation []
bracket_end (c ∷ s) =
    if is_negation c then longer (c ∷ []) (after_negation s) else after_negation (c ∷ s)

-- One member of a set: the test that a round of the loop makes.
pub data Member : Type 0 where
  one : ℕ → Member
  range : ℕ → ℕ → Member

unfoldable pub member_holds : Member → ℕ → Bool
member_holds (one low) c = low == c
member_holds (range low high) c = leb low c && leb c high

-- The upper end of a range, and what is left of the set.
abbrev pub high_end : ℕ → ℕ → Bytes → Member × Bytes
high_end low high [] = (range low high, [])
high_end low high (h ∷ s) = if high == backslash then (range low h, s) else (range low high, h ∷ s)

-- The rest of a round, once `low` is read: a range only where the dash has a member behind it.
unfoldable pub member_from : ℕ → Bytes → Member × Bytes
member_from low (dash ∷ high ∷ s) =
    if dash == b'-' then high_end low high s else (one low, dash ∷ high ∷ s)
member_from low s = (one low, s)

unfoldable pub next_member : ℕ → Bytes → Member × Bytes
unfolding member_from
next_member low [] = member_from low []
next_member low (d ∷ s) = if low == backslash then member_from d s else member_from low (d ∷ s)

-- The loop of `bracket_holds`; `fuel` bounds the rounds, each of which reads a byte at least.
unfoldable pub members_hold : ℕ → Bytes → ℕ → Bool → Bool
unfolding next_member member_holds
members_hold zero s c found = found
members_hold (suc fuel) [] c found = found
members_hold (suc fuel) (low ∷ s) c found =
    let (member, rest) = next_member low s in
    members_hold fuel rest c (member_holds member c || found)

abbrev pub members : Bytes → ℕ → Bool
members s c = members_hold (length s) s c false

unfoldable pub bracket_holds : Bytes → ℕ → Bool
unfolding members_hold
bracket_holds [] c = members [] c
bracket_holds (x ∷ s) c = if is_negation x then not (members s c) else members (x ∷ s) c

abbrev pub if_equal : ℕ → ℕ → Bytes → Option Bytes
if_equal x c s = if x == c then some s else none

-- The end of `item_matches`: an escaped byte, or a byte that stands for itself.
unfoldable pub literal_matches : ℕ → Bytes → ℕ → Option Bytes
literal_matches x [] c = if_equal x c []
literal_matches x (y ∷ s) c = if x == backslash then if_equal y c s else if_equal x c (y ∷ s)

abbrev pub set_matches : Bytes → ℕ → Option (Bytes × Bytes) → Option Bytes
set_matches s c none = literal_matches b'[' s c
set_matches s c (some (content, after)) = if bracket_holds content c then some after else none

-- `item_matches`: the pattern behind its first item, if that item takes the byte `c`.
unfoldable pub item_matches : Bytes → ℕ → Option Bytes
unfolding bracket_end bracket_holds literal_matches
item_matches [] c = none
item_matches (x ∷ s) c =
    if x == b'?'
    then some s
    else if x == b'['
    then set_matches s c (bracket_end s)
    else literal_matches x s c

-- The variables `after_star` and `resume`.
abbrev pub Back : Type 0
Back = Option (Bytes × Bytes)

unfoldable pub only_stars : Bytes → Bool
only_stars [] = true
only_stars (x ∷ p) = x == star && only_stars p

abbrev Round : Type 0
Round = Bytes → Bytes → Back → Option Bool

-- A mismatch: resume one byte later. `resume` is never at the terminator here.
abbrev pub resume_later : Back → Round → Option Bool
resume_later none next = some false
resume_later (some (after_star, [])) next = none
resume_later (some (after_star, _ ∷ resume)) next =
    next after_star resume (some (after_star, resume))

abbrev pub after_item : Bytes → Bytes → Back → Round → Option Bytes → Option Bool
after_item p t back next (some q) = next q t back
after_item p t back next none = resume_later back next

abbrev pub starts_with_star : Bytes → Bool
starts_with_star [] = false
starts_with_star (x ∷ _) = x == star

abbrev pub tail_of : Bytes → Bytes
tail_of [] = []
tail_of (_ ∷ s) = s

-- The loop of `glob_match` on `fuel` rounds; `none` is running out of them.
unfoldable pub match_loop : ℕ → Round
unfolding item_matches only_stars
match_loop zero p t back = none
match_loop (suc fuel) p [] back = some (only_stars p)
match_loop (suc fuel) p (c ∷ t) back =
    let at_star = match_loop fuel (tail_of p) (c ∷ t) (some (tail_of p, c ∷ t)) in
    let at_item = after_item p t back (match_loop fuel) (item_matches p c) in
    if starts_with_star p then at_star else at_item

unfoldable pub glob_match : Bytes → Bytes → Option Bool
unfolding match_loop
glob_match pattern text = match_loop ((length text + 1) * (length pattern + 1)) pattern text none
