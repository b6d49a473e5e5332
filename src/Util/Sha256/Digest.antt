-- ===== src/Util/Sha256/Digest.antt =====
-- src/util/sha256.c: the digest of a message, and of a file.
use molto.Base.{
  ℕ, ◌+◌, ◌-◌, ◌*◌, ◌%◌, ◌^◌, ◌≡◌, refl, ap, ap₂, ◌∙◌, Bytes, true, false, List, [], ◌∷◌, ◌++◌,
  some, none, inl, inr, length-replicate, length, replicate, arith, length-append, le-cases,
}
use molto.Util.Sha256.{
  Sha256State, initial_words, length_bytes, hex_words, sha256_finish, sha256_file,
}
use molto.Util.Sha256.Reference.{compress_blocks, padded, digest}
use molto.Util.Sha256.Absorbs.{Absorbs}
use molto.Util.Sha256.Updates.{Holds, joined, init-Holds}
use molto.Util.Sha256.Padded.{
  closed, message_length, closed_lem, pad_one, pad_two, length-length_bytes,
}

-- What is compressed is the message as it is to be padded.
closed-padded :
    (message : Bytes) (s : Sha256State) (h : Absorbs message s []) (zeroes : ℕ)
    → s.length_seen ≡ length message % 2 ^ 64
    → zeroes ≡ (119 - length message % 64) % 64
    → closed message s h zeroes ≡ padded message
unfolding padded
closed-padded message s h zeroes seen e =
    let counted : s.length_seen * 8 % 2 ^ 64 ≡ length message * 8 % 2 ^ 64 = omega (arith, seen) in
    closed_lem message s h zeroes
    ∙ ap₂ (λ n l. message ++ (0x80 ∷ replicate n 0) ++ length_bytes l) e counted

length-padded :
    (message : Bytes)
    → length (padded message) ≡ length message + (119 - length message % 64) % 64 + 9
unfolding padded
length-padded message =
    let count = (119 - length message % 64) % 64 in
    let z : Bytes = 0x80 ∷ replicate count 0 in
    let bits = length_bytes (length message * 8 % 2 ^ 64) in
    omega (
      arith,
      length-append (message ++ z) bits,
      length-append message z,
      length-replicate {A = ℕ} count 0,
      length-length_bytes (length message * 8 % 2 ^ 64),
    )

-- The state that holds a message ends as the message's digest.
sha256_finish-digest :
    (message : Bytes) (s : Sha256State) → Holds message s → sha256_finish s ≡ digest message
unfolding sha256_finish digest
sha256_finish-digest message s (h, seen) =
    let total = message_length message s h in
    let size = length-padded message in
    let short = h.short in
    elim (le-cases 56 s.buffered) [
      | inl two ↦ ap hex_words (
          pad_two message s h two
          ∙ ap₂ (λ n t. compress_blocks n initial_words t) (omega arith)
              (closed-padded message s h (119 - s.buffered) seen (omega arith)))
      | inr one ↦ ap hex_words (
          pad_one message s h one
          ∙ ap₂ (λ n t. compress_blocks n initial_words t) (omega arith)
              (closed-padded message s h (55 - s.buffered) seen (omega arith)))
    ]

-- The digest of a file that is read without an error is that of its bytes, however the reads cut
-- them into pieces and whatever the block's memory held; a file that does not open or whose stream
-- fails has none.
pub sha256_file-digest :
    (memory : Bytes) (chunks : List Bytes)
    → length memory ≡ 64
    → (sha256_file memory (some (record { chunks = chunks; failed = false }))
        ≡ some (digest (joined chunks)))
      × (sha256_file memory (some (record { chunks = chunks; failed = true })) ≡ none)
      × (sha256_file memory none ≡ none)
unfolding sha256_file
sha256_file-digest memory chunks h =
    (ap some (sha256_finish-digest (joined chunks) _ (init-Holds memory chunks h)), refl, refl)
