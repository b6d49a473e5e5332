-- ===== src/Util/Sha256/Absorbs.antt =====
-- src/util/sha256.c: what the state holds of the message that was given to it.
use molto.Base.{
  ℕ, zero, suc, ◌+◌, ◌*◌, ◌≤◌, ◌<◌, ◌≡◌, refl, sym, ap, ap₂, ◌∙◌, Bytes, [], ◌∷◌, ◌++◌,
  append_assoc, append-nil, ◌⊎◌, length, take, drop, arith, length-append, length-drop, length-take,
  take-append-drop,
}
use molto.Util.Sha256.{Sha256State, compress, initial_words, write_at}
use molto.Util.Sha256.Reference.{compress_blocks, compress_blocks-one}

-- Of a message, whole blocks were compressed, a tail shorter than a block is kept at the start of
-- the block, and `rest` is still to come.
pub record Absorbs (message : Bytes) (s : Sha256State) (rest : Bytes) : Type 0 where
  pub blocks : ℕ
  pub whole : Bytes
  pub tail : Bytes
  pub split : whole ++ tail ++ rest ≡ message
  pub sized : length whole ≡ blocks * 64
  pub compressed : s.state ≡ compress_blocks blocks initial_words whole
  pub kept : take s.buffered s.block ≡ tail
  pub short : s.buffered < 64
  pub array : length s.block ≡ 64

pub length-write_at :
    (array : Bytes) (offset : ℕ) (xs : Bytes)
    → offset + length xs ≤ length array
    → length (write_at array offset xs) ≡ length array
length-write_at array offset xs h = omega (
  arith,
  length-append (take offset array) xs,
  length-append (take offset array ++ xs) (drop (offset + length xs) array),
  length-take offset array,
  length-drop (offset + length xs) array,
)

pub take-append_whole : (xs ys : Bytes) (n : ℕ) → length xs ≡ n → take n (xs ++ ys) ≡ xs
take-append_whole [] ys zero h = refl
take-append_whole [] ys (suc n) h = absurd (omega arith)
take-append_whole (x ∷ xs) ys zero h = absurd (omega arith)
take-append_whole (x ∷ xs) ys (suc n) h = ap (◌∷◌ x) (take-append_whole xs ys n (omega arith))

pub take_all : (n : ℕ) (xs : Bytes) → length xs ≤ n → take n xs ≡ xs
take_all zero [] h = refl
take_all zero (x ∷ xs) h = absurd (omega arith)
take_all (suc n) [] h = refl
take_all (suc n) (x ∷ xs) h = ap (◌∷◌ x) (take_all n xs (omega arith))

-- Up to the end of what is written, an array holds what it held before and then that.
pub take-write_at :
    (array : Bytes) (offset n : ℕ) (xs : Bytes)
    → offset + length xs ≤ length array
    → n ≡ offset + length xs
    → take n (write_at array offset xs) ≡ take offset array ++ xs
take-write_at array offset n xs h e =
    take-append_whole (take offset array ++ xs) (drop (offset + length xs) array) n
      (omega (arith, length-append (take offset array) xs, length-take offset array))

-- The block is empty, or nothing is left.
abbrev pub IsLevel : Sha256State → Bytes → Type 0
IsLevel s rest = (s.buffered ≡ 0) ⊎ (length rest ≡ 0)

-- Bytes are moved from the input to the kept tail.
module _ (message : Bytes) (s : Sha256State) (input : Bytes) (taken : ℕ)
    (fits : s.buffered + taken ≤ 64) (there : taken ≤ length input)
    (h : Absorbs message s input) where
  abbrev pub added : Bytes
  added = write_at s.block s.buffered (take taken input)

  pub length-taken : length (take taken input) ≡ taken
  length-taken = omega (arith, length-take taken input)

  pub added_array : length added ≡ 64
  added_array =
      length-write_at s.block s.buffered (take taken input) (omega (arith, length-taken, h.array))
      ∙ h.array

  pub added_kept : take (s.buffered + taken) added ≡ h.tail ++ take taken input
  added_kept =
      take-write_at s.block s.buffered (s.buffered + taken) (take taken input)
        (omega (arith, length-taken, h.array)) (omega (arith, length-taken))
      ∙ ap (λ t. t ++ take taken input) h.kept

  moved : h.whole ++ (h.tail ++ take taken input) ++ drop taken input ≡ message
  moved =
      ap (λ t. t ++ drop taken input) (sym (append_assoc h.whole h.tail (take taken input)))
      ∙ append_assoc (h.whole ++ h.tail) (take taken input) (drop taken input)
      ∙ ap (λ t. h.whole ++ h.tail ++ t) (take-append-drop taken input)
      ∙ h.split

  pub length-kept_tail : length h.tail ≡ s.buffered
  length-kept_tail =
      ap (length {A = ℕ}) (sym h.kept)
      ∙ omega (arith, length-take s.buffered s.block, h.array, h.short)

  -- The block is not full yet.
  pub Absorbs-partial :
      s.buffered + taken < 64
      → Absorbs message
          (record s { block = added; buffered = s.buffered + taken })
          (drop taken input)
  Absorbs-partial l = record {
    blocks = h.blocks;
    whole = h.whole;
    tail = h.tail ++ take taken input;
    split = moved;
    sized = h.sized;
    compressed = h.compressed;
    kept = added_kept;
    short = l;
    array = added_array;
  }

  -- The block is full, and is compressed.
  pub Absorbs-full :
      s.buffered + taken ≡ 64
      → Absorbs message
          (record s { state = compress s.state added; block = added; buffered = 0 })
          (drop taken input)
  Absorbs-full e =
      let full : added ≡ h.tail ++ take taken input =
        sym (take_all 64 added (omega (arith, added_array)))
        ∙ ap (λ n. take n added) (sym e)
        ∙ added_kept in
      let block_length : length (h.tail ++ take taken input) ≡ 64 =
        omega (arith, length-append h.tail (take taken input), length-kept_tail, length-taken) in
      record {
        blocks = suc h.blocks;
        whole = h.whole ++ (h.tail ++ take taken input);
        tail = [];
        split =
            ap (λ t. t ++ drop taken input) (append-nil (h.whole ++ (h.tail ++ take taken input)))
            ∙ moved;
        sized =
            omega
              (arith, length-append h.whole (h.tail ++ take taken input), h.sized, block_length);
        compressed =
            ap₂ compress h.compressed full
            ∙ sym (compress_blocks-one h.blocks initial_words h.whole _ h.sized block_length);
        kept = refl;
        short = omega arith;
        array = added_array;
      }
