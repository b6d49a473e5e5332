-- ===== src/Util/Sha256/Tests.antt =====
-- Known answers of src/util/sha256.c: the first round and the first extended word of FIPS 180-4's
-- example "abc", and the digits of a word.
use molto.Base.{
  arith, none, some, false, true, ◌≡◌, refl, [], ◌∷◌, codes, replicate, ◌++◌, get_or, ℕ, List,
}
use molto.Util.Sha256.Reference.{digest}
use molto.Util.Sha256.Updates.{joined}
use molto.Util.Sha256.Digest.{sha256_file-digest}
use molto.Util.Sha256.{
  sha256_file, hex_word, digit_char, initial_words, one_round, extend_schedule, block_words,
  small_sigma0, small_sigma1, big_sigma0, big_sigma1, choose, majority, rotate_right,
}

abbrev abc_block : List ℕ
abc_block = 0x61626380 ∷ (replicate 14 0 ++ (0x18 ∷ []))

one_round_abc : (one_round initial_words 0x428a2f98 0x61626380).a ≡ 0x5d6aebcd
unfolding one_round big_sigma0 big_sigma1 choose majority rotate_right
one_round_abc = refl

one_round_abc_e : (one_round initial_words 0x428a2f98 0x61626380).e ≡ 0xfa2a4622
unfolding one_round big_sigma0 big_sigma1 choose majority rotate_right
one_round_abc_e = refl

extend_schedule_abc : get_or (extend_schedule 2 abc_block) 17 0 ≡ 0x000f0000
unfolding extend_schedule small_sigma0 small_sigma1 rotate_right
extend_schedule_abc = refl

block_words_abc : block_words 1 (codes "abc" ++ (0x80 ∷ [])) ≡ 0x61626380 ∷ []
unfolding block_words
block_words_abc = refl

hex_word_ba : hex_word 0xba7816bf ≡ codes "ba7816bf"
unfolding hex_word digit_char
hex_word_ba = refl

-- "abc" in two reads.
sha256_file-digest_example :
    (sha256_file
        (replicate 64 7)
        (some (record { chunks = codes "a" ∷ codes "bc" ∷ []; failed = false }))
      ≡ some (digest (joined (codes "a" ∷ codes "bc" ∷ []))))
    × (sha256_file
          (replicate 64 7)
          (some (record { chunks = codes "a" ∷ codes "bc" ∷ []; failed = true }))
        ≡ none)
    × (sha256_file (replicate 64 7) none ≡ none)
sha256_file-digest_example =
    sha256_file-digest (replicate 64 7) (codes "a" ∷ codes "bc" ∷ []) (omega arith)
