-- ===== src/Util/Sha256/Padded.antt =====
-- src/util/sha256.c: the padding of the last blocks, and the digest of a file.
use molto.Base.{
  ℕ, zero, suc, ◌+◌, ◌-◌, ◌*◌, ◌%◌, ◌^◌, ◌≤◌, ◌<◌, ◌≡◌, refl, sym, ap, ap₂, ◌∙◌, Bytes, [], ◌∷◌,
  ◌++◌, append_assoc, append-nil, ltb, lt→ltb, if_split, length-replicate, drop-length, length,
  take, replicate, arith, length-append, length-take,
}
use molto.Util.Sha256.{
  Words, Sha256State, compress, initial_words, write_at, close_full, pad, length_bytes,
}
use molto.Util.Sha256.Reference.{compress_blocks, compress_blocks-one}
use molto.Util.Sha256.Absorbs.{Absorbs, length-write_at, take-write_at}

-- Bytes written up to the end of the array.
write_at_end :
    (array : Bytes) (offset : ℕ) (xs : Bytes)
    → length array ≡ 64
    → offset + length xs ≡ 64
    → write_at array offset xs ≡ take offset array ++ xs
write_at_end array offset xs h e =
    ap (λ t. take offset array ++ xs ++ t) (drop-length array (offset + length xs) (omega arith))
    ∙ append-nil (take offset array ++ xs)

-- The last block: what is kept, zeroes and the length.
final_block :
    (array : Bytes) (k : ℕ) (bits : Bytes)
    → length array ≡ 64
    → k ≤ 56
    → length bits ≡ 8
    → write_at (write_at array k (replicate (56 - k) 0)) 56 bits
      ≡ take k array ++ replicate (56 - k) 0 ++ bits
final_block array k bits h l e =
    let zeroes = length-replicate {A = ℕ} (56 - k) 0 in
    write_at_end (write_at array k (replicate (56 - k) 0)) 56 bits
      (length-write_at array k (replicate (56 - k) 0) (omega arith) ∙ h) (omega arith)
    ∙ ap (λ t. t ++ bits)
        (take-write_at array k 56 (replicate (56 - k) 0) (omega arith) (omega arith))

replicate-add : (m n : ℕ) (c : ℕ) → replicate m c ++ replicate n c ≡ replicate (m + n) c
replicate-add zero n c = ap (λ k. replicate k c) (zero_plus n)
  where
    zero_plus : (n : ℕ) → n ≡ 0 + n
    zero_plus n = omega arith
replicate-add (suc m) n c =
    ap (◌∷◌ c) (replicate-add m n c) ∙ ap (λ k. replicate k c) (suc_plus m n)
  where
    suc_plus : (m n : ℕ) → suc (m + n) ≡ suc m + n
    suc_plus m n = omega arith

pub length-length_bytes : (n : ℕ) → length (length_bytes n) ≡ 8
unfolding length_bytes
length-length_bytes n = refl

close_full_open : (s : Sha256State) → s.buffered ≤ 56 → close_full s ≡ s
unfolding close_full
close_full_open s h =
    if_split (λ (t : Sha256State). t ≡ s) (ltb 56 s.buffered) _ s
      (λ over. absurd (ground (arith, over))) λ _. refl

close_full_over :
    (s : Sha256State)
    → 56 < s.buffered
    → let block = write_at s.block s.buffered (replicate (64 - s.buffered) 0) in
      close_full s ≡ record s { state = compress s.state block; block = block; buffered = 0 }
unfolding close_full
close_full_over s h = rw (close_full, lt→ltb 56 s.buffered h) refl

-- The bytes that fill the last block, or the last two.
module _ (message : Bytes) (s : Sha256State) (h : Absorbs message s []) where
  abbrev pub bits : Bytes
  bits = length_bytes (s.length_seen * 8 % 2 ^ 64)

  pub length-kept_tail : length h.tail ≡ s.buffered
  length-kept_tail =
      ap (length {A = ℕ}) (sym h.kept)
      ∙ omega (arith, length-take s.buffered s.block, h.array, h.short)

  pub message_length : length message ≡ h.blocks * 64 + s.buffered
  message_length = omega (
    arith,
    ap (length {A = ℕ}) h.split,
    length-append (h.whole ++ h.tail) [],
    length-append h.whole h.tail,
    h.sized,
    length-kept_tail,
  )

  abbrev marked_block : Bytes
  marked_block = write_at s.block s.buffered (0x80 ∷ [])

  marked_array : length marked_block ≡ 64
  marked_array =
      length-write_at s.block s.buffered (0x80 ∷ []) (omega (arith, h.array, h.short)) ∙ h.array

  marked_kept : take (s.buffered + 1) marked_block ≡ h.tail ++ (0x80 ∷ [])
  marked_kept =
      take-write_at s.block s.buffered (s.buffered + 1) (0x80 ∷ [])
        (omega (arith, h.array, h.short)) refl
      ∙ ap (λ t. t ++ (0x80 ∷ [])) h.kept

  -- The message, the mark, and what follows it.
  abbrev pub closed : ℕ → Bytes
  closed zeroes = h.whole ++ (h.tail ++ (0x80 ∷ []) ++ replicate zeroes 0 ++ bits)

  pub closed_lem : (zeroes : ℕ) → closed zeroes ≡ message ++ (0x80 ∷ replicate zeroes 0) ++ bits
  closed_lem zeroes =
      let z : Bytes = replicate zeroes 0 in
      sym (append_assoc h.whole (h.tail ++ (0x80 ∷ []) ++ z) bits)
      ∙ ap (λ t. h.whole ++ t ++ bits) (append_assoc h.tail (0x80 ∷ []) z)
      ∙ ap (λ t. t ++ bits)
          (sym (append_assoc h.whole h.tail (0x80 ∷ z))
            ∙ ap (λ m. m ++ (0x80 ∷ z)) (sym (append-nil (h.whole ++ h.tail)) ∙ h.split))

  abbrev marked : Sha256State
  marked = record s { block = marked_block; buffered = s.buffered + 1 }

  -- The state that the last block is compressed into, with that block.
  abbrev finished : Sha256State → Words
  finished m =
      compress m.state
        (write_at (write_at m.block m.buffered (replicate (56 - m.buffered) 0)) 56 bits)

  last_length :
      (zeroes : ℕ)
      → length (h.tail ++ (0x80 ∷ []) ++ replicate zeroes 0 ++ bits) ≡ s.buffered + zeroes + 9
  last_length zeroes =
      let z : Bytes = replicate zeroes 0 in
      omega (
        arith,
        length-append (h.tail ++ (0x80 ∷ []) ++ z) bits,
        length-append (h.tail ++ (0x80 ∷ [])) z,
        length-append h.tail (0x80 ∷ []),
        length-kept_tail,
        length-replicate {A = ℕ} zeroes 0,
        length-length_bytes (s.length_seen * 8 % 2 ^ 64),
      )

  -- The length fits in the block that the tail is in.
  pub pad_one :
      s.buffered < 56
      → (pad s).state ≡ compress_blocks (suc h.blocks) initial_words (closed (55 - s.buffered))
  unfolding pad
  pad_one l =
      let shape : take (s.buffered + 1) marked_block ++ replicate (56 - (s.buffered + 1)) 0 ++ bits
          ≡ h.tail ++ (0x80 ∷ []) ++ replicate (55 - s.buffered) 0 ++ bits =
        ap₂ (λ t n. t ++ replicate n 0 ++ bits) marked_kept (omega arith) in
      let size = last_length (55 - s.buffered) in
      ap finished (close_full_open marked (omega arith))
      ∙ ap₂ compress h.compressed (
          final_block marked_block (s.buffered + 1) bits marked_array (omega arith)
            (length-length_bytes _)
          ∙ shape)
      ∙ sym (compress_blocks-one h.blocks initial_words h.whole _ h.sized (omega arith))

  -- The block that has no room for the length, and the one after it.
  full_block :
      56 ≤ s.buffered → length (h.tail ++ (0x80 ∷ []) ++ replicate (63 - s.buffered) 0) ≡ 64
  full_block l =
      let z : Bytes = replicate (63 - s.buffered) 0 in
      omega (
        arith,
        length-append (h.tail ++ (0x80 ∷ [])) z,
        length-append h.tail (0x80 ∷ []),
        length-kept_tail,
        length-replicate {A = ℕ} (63 - s.buffered) 0,
        h.short,
      )

  two_blocks :
      56 ≤ s.buffered
      → h.whole
          ++ (h.tail ++ (0x80 ∷ []) ++ replicate (63 - s.buffered) 0)
          ++ (replicate 56 0 ++ bits)
        ≡ closed (119 - s.buffered)
  two_blocks l =
      let z : Bytes = replicate (63 - s.buffered) 0 in
      append_assoc h.whole (h.tail ++ (0x80 ∷ []) ++ z) (replicate 56 0 ++ bits)
      ∙ ap (λ t. h.whole ++ t)
          (sym (append_assoc (h.tail ++ (0x80 ∷ []) ++ z) (replicate 56 0) bits)
            ∙ ap (λ t. t ++ bits)
                (append_assoc (h.tail ++ (0x80 ∷ [])) z (replicate 56 0)
                  ∙ ap (λ t. h.tail ++ (0x80 ∷ []) ++ t)
                      (replicate-add (63 - s.buffered) 56 0 ∙ ap (λ n. replicate n 0) sum)))
    where
      sum : 63 - s.buffered + 56 ≡ 119 - s.buffered
      sum = omega (arith, h.short)

  pub pad_two :
      56 ≤ s.buffered
      → (pad s).state
        ≡ compress_blocks (suc (suc h.blocks)) initial_words (closed (119 - s.buffered))
  unfolding pad
  pad_two l =
      let zeroes : Bytes = replicate (64 - (s.buffered + 1)) 0 in
      let filled = write_at marked_block (s.buffered + 1) zeroes in
      let short = h.short in
      let size = length-replicate {A = ℕ} (64 - (s.buffered + 1)) 0 in
      let first : filled ≡ h.tail ++ (0x80 ∷ []) ++ replicate (63 - s.buffered) 0 =
        write_at_end marked_block (s.buffered + 1) zeroes marked_array (omega arith)
        ∙ ap₂ (λ t n. t ++ replicate n 0) marked_kept (omega arith) in
      let array : length filled ≡ 64 = ap (length {A = ℕ}) first ∙ full_block l in
      let last_size = length-length_bytes (s.length_seen * 8 % 2 ^ 64) in
      ap finished (close_full_over marked (omega arith))
      ∙ ap₂ compress
          (ap₂ compress h.compressed first
            ∙ sym (compress_blocks-one h.blocks initial_words h.whole _ h.sized (full_block l)))
          (final_block filled 0 bits array (omega arith) last_size)
      ∙ sym (
          compress_blocks-one (suc h.blocks) initial_words _ (replicate 56 0 ++ bits)
            (omega (
              arith,
              length-append h.whole (h.tail ++ (0x80 ∷ []) ++ replicate (63 - s.buffered) 0),
              full_block l,
              h.sized,
            ))
            (omega (arith, length-append (replicate 56 0) bits)))
      ∙ ap (compress_blocks (suc (suc h.blocks)) initial_words) (two_blocks l)
