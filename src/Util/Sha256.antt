-- ===== src/Util/Sha256.antt =====
-- src/util/sha256.c: the hash of a message that arrives in pieces.
use molto.Base.{
  ℕ, zero, suc, ◌+◌, ◌-◌, ◌*◌, ◌/◌, ◌%◌, ◌^◌, min, Bytes, Bool, true, false, Option, none, some,
  List, [], ◌∷◌, ◌++◌, ◌==◌, ltb, leb, if◌then◌else◌, length, get_or, take, drop, replicate,
}
mod Rounds
pub mod Reference
pub mod Absorbs
pub mod Updates
pub mod Padded
pub mod Digest
mod Tests
unfoldable pub use Rounds.*

abbrev pub block_size : ℕ
block_size = 64

abbrev pub length_offset : ℕ
length_offset = 56

pub record Sha256State : Type 0 where
  pub state : Words
  pub length_seen : ℕ
  pub block : Bytes
  pub buffered : ℕ

abbrev pub initial_words : Words
initial_words = record {
  a = 0x6a09e667;
  b = 0xbb67ae85;
  c = 0x3c6ef372;
  d = 0xa54ff53a;
  e = 0x510e527f;
  f = 0x9b05688c;
  g = 0x1f83d9ab;
  h = 0x5be0cd19;
}

-- The block keeps whatever its memory held.
unfoldable pub sha256_init : Bytes → Sha256State
sha256_init block = record { state = initial_words; length_seen = 0; block = block; buffered = 0 }

-- `memcpy(array + offset, input, length)`
abbrev pub write_at : Bytes → ℕ → Bytes → Bytes
write_at array offset input = take offset array ++ input ++ drop (offset + length input) array

-- A partly filled block is topped up; what is left of the input goes on.
unfoldable pub top_up : Sha256State → Bytes → Sha256State × Bytes
top_up s input =
    let taken = min (length input) (block_size - s.buffered) in
    let block = write_at s.block s.buffered (take taken input) in
    let buffered = s.buffered + taken in
    if ltb 0 s.buffered
    then (if buffered == block_size
        then (
          record s { state = compress s.state block; block = block; buffered = 0 },
          drop taken input,
        )
        else (record s { block = block; buffered = buffered }, drop taken input))
    else (s, input)

-- Whole blocks are taken straight from the input: a block is a round, so its length is enough.
unfoldable pub take_blocks : ℕ → Sha256State → Bytes → Sha256State × Bytes
take_blocks zero s input = (s, input)
take_blocks (suc n) s input = elim (leb block_size (length input)) [
  | true ↦
      take_blocks n (record s { state = compress s.state (take block_size input) })
        (drop block_size input)
  | false ↦ (s, input)
]

unfoldable pub keep_rest : Sha256State → Bytes → Sha256State
keep_rest s input =
    if ltb 0 (length input)
    then record s { block = write_at s.block 0 input; buffered = length input }
    else s

unfoldable pub sha256_update : Sha256State → Bytes → Sha256State
sha256_update s input =
    let counted = record s { length_seen = (s.length_seen + length input) % 2 ^ 64 } in
    let (topped, rest) = top_up counted input in
    let (filled, tail) = take_blocks (length rest) topped rest in keep_rest filled tail

-- The eight bytes of the length in bits, most significant first.
unfoldable pub length_bytes : ℕ → Bytes
length_bytes bits =
    bits / 2 ^ 56 % 256
    ∷ bits / 2 ^ 48 % 256
    ∷ bits / 2 ^ 40 % 256
    ∷ bits / 2 ^ 32 % 256
    ∷ bits / 2 ^ 24 % 256
    ∷ bits / 2 ^ 16 % 256
    ∷ bits / 2 ^ 8 % 256
    ∷ bits % 256
    ∷ []

-- The block that has no room left for the length is closed with zeroes.
unfoldable pub close_full : Sha256State → Sha256State
close_full s =
    let block = write_at s.block s.buffered (replicate (block_size - s.buffered) 0) in
    if ltb length_offset s.buffered
    then record s { state = compress s.state block; block = block; buffered = 0 }
    else s

unfoldable pub pad : Sha256State → Sha256State
pad s =
    let bits = s.length_seen * 8 % 2 ^ 64 in
    let marked =
      close_full
        (record s { block = write_at s.block s.buffered (0x80 ∷ []); buffered = s.buffered + 1 }) in
    let zeroed =
      write_at marked.block marked.buffered (replicate (length_offset - marked.buffered) 0) in
    let block = write_at zeroed length_offset (length_bytes bits) in
    record marked { state = compress marked.state block; block = block }

-- The digits are lower case.
unfoldable pub digit_char : ℕ → ℕ
digit_char v = if ltb v 10 then b'0' + v else b'a' + (v - 10)

abbrev hex_pair : ℕ → Bytes
hex_pair value = digit_char (value / 16) ∷ digit_char (value % 16) ∷ []

-- The eight digits of a word.
unfoldable pub hex_word : ℕ → Bytes
hex_word w =
    hex_pair (w / 2 ^ 24 % 256)
    ++ hex_pair (w / 2 ^ 16 % 256)
    ++ hex_pair (w / 2 ^ 8 % 256)
    ++ hex_pair (w % 256)

unfoldable pub hex_words : Words → Bytes
hex_words w =
    hex_word w.a
    ++ hex_word w.b
    ++ hex_word w.c
    ++ hex_word w.d
    ++ hex_word w.e
    ++ hex_word w.f
    ++ hex_word w.g
    ++ hex_word w.h

unfoldable pub sha256_finish : Sha256State → Bytes
sha256_finish s = hex_words (pad s).state

unfoldable pub update_all : Sha256State → List Bytes → Sha256State
update_all s [] = s
update_all s (chunk ∷ chunks) = update_all (sha256_update s chunk) chunks

-- What reading a file gives: its chunks, and whether the stream failed in the end.
pub record FileRead : Type 0 where
  pub chunks : List Bytes
  pub failed : Bool

-- The digest, or nothing where the file does not open or its stream fails.
unfoldable pub sha256_file : Bytes → Option FileRead → Option Bytes
sha256_file memory none = none
sha256_file memory (some file) =
    let s = update_all (sha256_init memory) file.chunks in
    if file.failed then none else some (sha256_finish s)
