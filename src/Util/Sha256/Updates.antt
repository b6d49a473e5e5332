-- ===== src/Util/Sha256/Updates.antt =====
-- src/util/sha256.c: an update keeps what the state holds of the message, whatever the pieces.
use molto.Base.{
  ℕ, zero, suc, ◌+◌, ◌-◌, ◌%◌, ◌^◌, ◌≤◌, ◌<◌, min, ◌≡◌, refl, sym, ap, subst, ◌∙◌, Bytes, false,
  List, [], ◌∷◌, ◌++◌, append_assoc, append-nil, ◌==◌, ltb, leb, leb→le, ltb→lt, ==_iff, Bool-cases,
  inl, inr, if_split, if_elim, length, take, drop, arith, length-append, length-drop, length-take,
  take-append-drop,
}
use molto.Util.Sha256.{
  Sha256State, compress, initial_words, top_up, take_blocks, keep_rest, sha256_init, sha256_update,
  update_all,
}
use molto.Util.Sha256.Reference.{compress_blocks, compress_blocks-one}
use molto.Util.Sha256.Absorbs.{
  Absorbs, IsLevel, Absorbs-partial, Absorbs-full, length-write_at, take-write_at,
}

-- What a step of an update comes to.
abbrev Fed : Bytes → ℕ → Sha256State × Bytes → Type 0
Fed message seen (s, rest) = Absorbs message s rest × IsLevel s rest × (s.length_seen ≡ seen)

top_up-Fed :
    (message : Bytes) (s : Sha256State) (input : Bytes)
    → Absorbs message s input
    → Fed message s.length_seen (top_up s input)
unfolding top_up
top_up-Fed message s input h =
    let taken = min (length input) (64 - s.buffered) in
    let short = h.short in
    let left = length-drop taken input in
    if_split (Fed message s.length_seen) (ltb 0 s.buffered) _ (s, input)
      (λ _.
        if_split (Fed message s.length_seen) (s.buffered + taken == 64) _ _
          (λ full.
            let e : s.buffered + taken ≡ 64 = (==_iff (s.buffered + taken) 64).0 full in
            (Absorbs-full message s input taken (omega arith) (omega arith) h e, inl refl, refl))
          λ room.
            let l : s.buffered + taken < 64 = ground (arith, room) in
            (
              Absorbs-partial message s input taken (omega arith) (omega arith) h l,
              inr (omega arith),
              refl,
            ))
      λ empty. (h, inl (ground (arith, empty)), refl)

level_empty : (s : Sha256State) (rest : Bytes) → IsLevel s rest → 0 < length rest → s.buffered ≡ 0
level_empty s rest (inl e) h = e
level_empty s rest (inr e) h = absurd (omega arith)

-- With an empty block, nothing is kept.
empty_tail :
    (message : Bytes) (s : Sha256State) (rest : Bytes) (h : Absorbs message s rest)
    → s.buffered ≡ 0
    → h.tail ≡ []
empty_tail message s rest h e = sym h.kept ∙ ap (λ n. take n s.block) e

empty_split :
    (message : Bytes) (s : Sha256State) (rest : Bytes) (h : Absorbs message s rest)
    → s.buffered ≡ 0
    → h.whole ++ rest ≡ message
empty_split message s rest h e =
    ap (λ t. t ++ rest) (sym (append-nil h.whole))
    ∙ ap (λ t. h.whole ++ t ++ rest) (sym (empty_tail message s rest h e))
    ∙ h.split

-- A block is taken from the input.
block-Absorbs :
    (message : Bytes) (s : Sha256State) (input : Bytes)
    → Absorbs message s input
    → s.buffered ≡ 0
    → 64 ≤ length input
    → Absorbs message (record s { state = compress s.state (take 64 input) }) (drop 64 input)
block-Absorbs message s input h empty more =
    let size : length (take 64 input) ≡ 64 = omega (arith, length-take 64 input) in
    let blocks = suc h.blocks in
    record {
      blocks = blocks;
      whole = h.whole ++ take 64 input;
      tail = [];
      split =
          ap (λ t. t ++ drop 64 input) (append-nil (h.whole ++ take 64 input))
          ∙ append_assoc h.whole (take 64 input) (drop 64 input)
          ∙ ap (λ t. h.whole ++ t) (take-append-drop 64 input)
          ∙ empty_split message s input h empty;
      sized = omega (arith, length-append h.whole (take 64 input), h.sized);
      compressed =
          ap (λ w. compress w (take 64 input)) h.compressed
          ∙ sym (compress_blocks-one h.blocks initial_words h.whole _ h.sized size);
      kept = h.kept ∙ empty_tail message s input h empty;
      short = h.short;
      array = h.array;
    }

take_blocks-Fed :
    (n : ℕ) (message : Bytes) (seen : ℕ) (s : Sha256State) (input : Bytes)
    → length input ≤ n
    → Fed message seen (s, input)
    → let (filled, rest) = take_blocks n s input in
      Fed message seen (filled, rest) × (length rest < 64)
unfolding take_blocks
take_blocks-Fed zero message seen s input l h = (h, omega arith)
take_blocks-Fed (suc n) message seen s input l (h, level, e) =
    elim (Bool-cases (leb 64 (length input))) [
      | inr small ↦ rw (take_blocks, small) ((h, level, e), ground (arith, small))
      | inl big ↦
          let more = leb→le 64 (length input) big in
          let empty = level_empty s input level (omega arith) in
          rw (take_blocks, big)
            (take_blocks-Fed n message seen (record s { state = compress s.state (take 64 input) })
              (drop 64 input) (omega (arith, length-drop 64 input))
              (block-Absorbs message s input h empty more, inl empty, e))
    ]

-- The rest is kept.
keep_rest-Absorbs :
    (message : Bytes) (s : Sha256State) (rest : Bytes)
    → Absorbs message s rest
    → IsLevel s rest
    → length rest < 64
    → Absorbs message (keep_rest s rest) []
unfolding keep_rest
keep_rest-Absorbs message s rest h level l =
    if_split (λ t. Absorbs message t []) (ltb 0 (length rest)) _ s
      (λ some_left.
        let empty = level_empty s rest level (ltb→lt 0 (length rest) some_left) in
        record {
          blocks = h.blocks;
          whole = h.whole;
          tail = rest;
          split = append-nil (h.whole ++ rest) ∙ empty_split message s rest h empty;
          sized = h.sized;
          compressed = h.compressed;
          kept = take-write_at s.block 0 (length rest) rest (omega (arith, h.array)) (omega arith);
          short = l;
          array = length-write_at s.block 0 rest (omega (arith, h.array)) ∙ h.array;
        })
      λ none_left. subst (Absorbs message s) (no_bytes rest none_left) h
  where
    no_bytes : (xs : Bytes) → ltb 0 (length xs) ≡ false → xs ≡ []
    no_bytes [] e = refl
    no_bytes (x ∷ xs) e = absurd (ground (arith, e))

keep_rest_counted :
    (s : Sha256State) (rest : Bytes) → (keep_rest s rest).length_seen ≡ s.length_seen
unfolding keep_rest
keep_rest_counted s rest =
    if_elim (λ (t : Sha256State). t.length_seen ≡ s.length_seen) (ltb 0 (length rest)) _ s refl refl

-- The state after a message: its bytes are absorbed, and its length is counted modulo 2 ^ 64.
abbrev pub Holds : Bytes → Sha256State → Type 0
Holds message s = Absorbs message s [] × (s.length_seen ≡ length message % 2 ^ 64)

pub sha256_update-Holds :
    (message : Bytes) (s : Sha256State) (input : Bytes)
    → Holds message s
    → Holds (message ++ input) (sha256_update s input)
unfolding sha256_update
sha256_update-Holds message s input (h, seen) =
    let counted : Sha256State = record s {
      length_seen = (s.length_seen + length input) % 2 ^ 64;
    } in
    let start : Absorbs (message ++ input) counted input = record {
      blocks = h.blocks;
      whole = h.whole;
      tail = h.tail;
      split = ap (λ t. t ++ input) (sym (append-nil (h.whole ++ h.tail)) ∙ h.split);
      sized = h.sized;
      compressed = h.compressed;
      kept = h.kept;
      short = h.short;
      array = h.array;
    } in
    let topped = (top_up counted input).0 in
    let rest = (top_up counted input).1 in
    let fed = top_up-Fed (message ++ input) counted input start in
    let (done, less) =
      take_blocks-Fed (length rest) (message ++ input) counted.length_seen topped rest (omega arith)
        fed in
    let filled = (take_blocks (length rest) topped rest).0 in
    let tail = (take_blocks (length rest) topped rest).1 in
    let count : (s.length_seen + length input) % 2 ^ 64 ≡ length (message ++ input) % 2 ^ 64 =
      omega (arith, length-append message input, seen) in
    (
      keep_rest-Absorbs (message ++ input) filled tail (done.0) (done.1) less,
      keep_rest_counted filled tail ∙ done.2 ∙ count,
    )

sha256_init-Holds : (block : Bytes) → length block ≡ 64 → Holds [] (sha256_init block)
unfolding sha256_init compress_blocks
sha256_init-Holds block h = (
  record {
    blocks = 0;
    whole = [];
    tail = [];
    split = refl;
    sized = refl;
    compressed = refl;
    kept = refl;
    short = omega arith;
    array = h;
  },
  refl,
)

-- The pieces of a message, put together.
unfoldable pub joined : List Bytes → Bytes
joined [] = []
joined (chunk ∷ chunks) = chunk ++ joined chunks

pub update_all-Holds :
    (chunks : List Bytes) (message : Bytes) (s : Sha256State)
    → Holds message s
    → Holds (message ++ joined chunks) (update_all s chunks)
unfolding update_all joined
update_all-Holds [] message s h = subst (λ m. Holds m s) (sym (append-nil message)) h
update_all-Holds (chunk ∷ chunks) message s h =
    subst (λ m. Holds m (update_all (sha256_update s chunk) chunks))
      (append_assoc message chunk (joined chunks))
      (update_all-Holds chunks (message ++ chunk) (sha256_update s chunk)
        (sha256_update-Holds message s chunk h))

-- After the pieces of a message, the state holds it.
pub init-Holds :
    (memory : Bytes) (chunks : List Bytes)
    → length memory ≡ 64
    → Holds (joined chunks) (update_all (sha256_init memory) chunks)
init-Holds memory chunks h =
    update_all-Holds chunks [] (sha256_init memory) (sha256_init-Holds memory h)
