-- ===== src/Util/Sha256/Reference.antt =====
-- The hash of a whole message, as FIPS 180-4 describes it: the message is padded to whole blocks, and
-- the blocks are compressed in turn. Code: src/util/sha256.c.
use molto.Base.{
  ℕ, zero, suc, ◌+◌, ◌-◌, ◌*◌, ◌/◌, ◌%◌, ◌^◌, ◌≡◌, refl, ap, ap₂, ◌∙◌, Bytes, [], ◌∷◌, ◌++◌, length,
  take, drop, replicate, arith, length-drop, take-append_le, drop-append_le,
}
use molto.Util.Sha256.{Words, compress, initial_words, length_bytes, hex_words}

unfoldable pub compress_blocks : ℕ → Words → Bytes → Words
compress_blocks zero w message = w
compress_blocks (suc n) w message =
    compress_blocks n (compress w (take 64 message)) (drop 64 message)

-- Section 5.1.1: a set bit, the fewest zeroes that leave eight bytes of a block, and the length.
unfoldable pub padded : Bytes → Bytes
padded message =
    message
    ++ (0x80 ∷ replicate ((119 - length message % 64) % 64) 0)
    ++ length_bytes (length message * 8 % 2 ^ 64)

unfoldable pub digest : Bytes → Bytes
digest message =
    let blocks = padded message in
    hex_words (compress_blocks (length blocks / 64) initial_words blocks)

zero_add : (k : ℕ) → 0 + k ≡ k
zero_add k = omega arith

-- The blocks of one text and then those of another.
pub compress_blocks-append :
    (n k : ℕ) (w : Words) (xs ys : Bytes)
    → length xs ≡ n * 64
    → compress_blocks (n + k) w (xs ++ ys) ≡ compress_blocks k (compress_blocks n w xs) ys
unfolding compress_blocks
compress_blocks-append zero k w [] ys e = ap (λ j. compress_blocks j w ys) (zero_add k)
compress_blocks-append zero k w (x ∷ xs) ys e = absurd (omega arith)
compress_blocks-append (suc n) k w xs ys e =
    let first = take-append_le 64 xs ys (omega arith) in
    let later = drop-append_le 64 xs ys (omega arith) in
    ap (λ j. compress_blocks j w (xs ++ ys)) (suc_add n k)
    ∙ ap₂ (λ b s. compress_blocks (n + k) (compress w b) s) first later
    ∙ compress_blocks-append n k (compress w (take 64 xs)) (drop 64 xs) ys
        (omega (arith, length-drop 64 xs))
  where
    suc_add : (n k : ℕ) → suc n + k ≡ suc (n + k)
    suc_add n k = omega arith

-- One block more.
pub compress_blocks-one :
    (n : ℕ) (w : Words) (xs block : Bytes)
    → length xs ≡ n * 64
    → length block ≡ 64
    → compress_blocks (suc n) w (xs ++ block) ≡ compress (compress_blocks n w xs) block
unfolding compress_blocks
compress_blocks-one n w xs block e f =
    ap (λ j. compress_blocks j w (xs ++ block)) (add_one n)
    ∙ compress_blocks-append n 1 w xs block e
    ∙ ap (compress (compress_blocks n w xs)) (take_whole 64 block f)
  where
    add_one : (n : ℕ) → suc n ≡ n + 1
    add_one n = omega arith

    take_whole : (n : ℕ) (xs : Bytes) → length xs ≡ n → take n xs ≡ xs
    take_whole zero [] h = refl
    take_whole zero (x ∷ xs) h = absurd (omega arith)
    take_whole (suc n) [] h = refl
    take_whole (suc n) (x ∷ xs) h = ap (◌∷◌ x) (take_whole n xs (omega arith))
