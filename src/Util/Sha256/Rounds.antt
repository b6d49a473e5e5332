-- ===== src/Util/Sha256/Rounds.antt =====
-- src/util/sha256.c: the words, the schedule and the rounds of one block.
use Prim.Native.Nat.{bit_and, bit_or, bit_xor}
use molto.Base.{
  ℕ, zero, suc, ◌+◌, ◌-◌, ◌*◌, ◌/◌, ◌%◌, ◌^◌, Bytes, List, [], ◌∷◌, ◌++◌, length, get_or, drop,
}

abbrev word : ℕ → ℕ
word x = x % 2 ^ 32

abbrev pub round_constants : List ℕ
round_constants =
    0x428a2f98 ∷ 0x71374491 ∷ 0xb5c0fbcf ∷ 0xe9b5dba5 ∷ 0x3956c25b ∷ 0x59f111f1 ∷ 0x923f82a4
    ∷ 0xab1c5ed5 ∷ 0xd807aa98 ∷ 0x12835b01 ∷ 0x243185be ∷ 0x550c7dc3 ∷ 0x72be5d74 ∷ 0x80deb1fe
    ∷ 0x9bdc06a7 ∷ 0xc19bf174 ∷ 0xe49b69c1 ∷ 0xefbe4786 ∷ 0x0fc19dc6 ∷ 0x240ca1cc ∷ 0x2de92c6f
    ∷ 0x4a7484aa ∷ 0x5cb0a9dc ∷ 0x76f988da ∷ 0x983e5152 ∷ 0xa831c66d ∷ 0xb00327c8 ∷ 0xbf597fc7
    ∷ 0xc6e00bf3 ∷ 0xd5a79147 ∷ 0x06ca6351 ∷ 0x14292967 ∷ 0x27b70a85 ∷ 0x2e1b2138 ∷ 0x4d2c6dfc
    ∷ 0x53380d13 ∷ 0x650a7354 ∷ 0x766a0abb ∷ 0x81c2c92e ∷ 0x92722c85 ∷ 0xa2bfe8a1 ∷ 0xa81a664b
    ∷ 0xc24b8b70 ∷ 0xc76c51a3 ∷ 0xd192e819 ∷ 0xd6990624 ∷ 0xf40e3585 ∷ 0x106aa070 ∷ 0x19a4c116
    ∷ 0x1e376c08 ∷ 0x2748774c ∷ 0x34b0bcb5 ∷ 0x391c0cb3 ∷ 0x4ed8aa4a ∷ 0x5b9cca4f ∷ 0x682e6ff3
    ∷ 0x748f82ee ∷ 0x78a5636f ∷ 0x84c87814 ∷ 0x8cc70208 ∷ 0x90befffa ∷ 0xa4506ceb ∷ 0xbef9a3f7
    ∷ 0xc67178f2 ∷ []

-- The eight words of the running state, and of a block's rounds.
pub record Words : Type 0 where
  pub a : ℕ
  pub b : ℕ
  pub c : ℕ
  pub d : ℕ
  pub e : ℕ
  pub f : ℕ
  pub g : ℕ
  pub h : ℕ

unfoldable pub rotate_right : ℕ → ℕ → ℕ
rotate_right value bits = bit_or (value / 2 ^ bits) (word (value * 2 ^ (32 - bits)))

unfoldable pub choose : ℕ → ℕ → ℕ → ℕ
choose x y z = bit_xor (bit_and x y) (bit_and (0xffffffff - x) z)

unfoldable pub majority : ℕ → ℕ → ℕ → ℕ
majority x y z = bit_xor (bit_xor (bit_and x y) (bit_and x z)) (bit_and y z)

unfoldable pub big_sigma0 : ℕ → ℕ
big_sigma0 x = bit_xor (bit_xor (rotate_right x 2) (rotate_right x 13)) (rotate_right x 22)

unfoldable pub big_sigma1 : ℕ → ℕ
big_sigma1 x = bit_xor (bit_xor (rotate_right x 6) (rotate_right x 11)) (rotate_right x 25)

unfoldable pub small_sigma0 : ℕ → ℕ
small_sigma0 x = bit_xor (bit_xor (rotate_right x 7) (rotate_right x 18)) (x / 2 ^ 3)

unfoldable pub small_sigma1 : ℕ → ℕ
small_sigma1 x = bit_xor (bit_xor (rotate_right x 17) (rotate_right x 19)) (x / 2 ^ 10)

-- The first words of the schedule: `n` words of four bytes, most significant first.
unfoldable pub block_words : ℕ → Bytes → List ℕ
block_words zero block = []
block_words (suc n) block =
    bit_or
      (bit_or (bit_or (get_or block 0 0 * 2 ^ 24) (get_or block 1 0 * 2 ^ 16))
        (get_or block 2 0 * 2 ^ 8))
      (get_or block 3 0)
    ∷ block_words n (drop 4 block)

-- The words after them, each from four that come before it.
unfoldable pub extend_schedule : ℕ → List ℕ → List ℕ
extend_schedule zero schedule = schedule
extend_schedule (suc n) schedule =
    let i = length schedule in
    extend_schedule n (
      schedule
      ++ (word (
            small_sigma1 (get_or schedule (i - 2) 0)
            + get_or schedule (i - 7) 0
            + small_sigma0 (get_or schedule (i - 15) 0)
            + get_or schedule (i - 16) 0)
          ∷ []))

unfoldable pub one_round : Words → ℕ → ℕ → Words
one_round w constant scheduled =
    let t1 = word (w.h + big_sigma1 w.e + choose w.e w.f w.g + constant + scheduled) in
    let t2 = word (big_sigma0 w.a + majority w.a w.b w.c) in
    record {
      a = word (t1 + t2);
      b = w.a;
      c = w.b;
      d = w.c;
      e = word (w.d + t1);
      f = w.e;
      g = w.f;
      h = w.g;
    }

unfoldable pub run_rounds : List ℕ → List ℕ → Words → Words
run_rounds (constant ∷ constants) (scheduled ∷ schedule) w =
    run_rounds constants schedule (one_round w constant scheduled)
run_rounds _ _ w = w

unfoldable pub compress : Words → Bytes → Words
compress state block =
    let schedule = extend_schedule 48 (block_words 16 block) in
    let w = run_rounds round_constants schedule state in
    record {
      a = word (state.a + w.a);
      b = word (state.b + w.b);
      c = word (state.c + w.c);
      d = word (state.d + w.d);
      e = word (state.e + w.e);
      f = word (state.f + w.f);
      g = word (state.g + w.g);
      h = word (state.h + w.h);
    }
