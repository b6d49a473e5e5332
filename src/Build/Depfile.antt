-- ===== src/Build/Depfile.antt =====
-- src/build/depfile.c: the prerequisites of a rule that a compiler wrote.
use molto.Base.{
  ℕ, zero, suc, ◌+◌, Bytes, Bool, true, false, ◌&&◌, ◌||◌, Option, none, some, ◌>>=◌, List, [], ◌∷◌,
  ◌++◌, ◌==◌, leb, if◌then◌else◌, length,
}
use molto.Services.Ir.Paths.{fs_path_is_absolute}
pub mod RoundTrip
mod Tests

abbrev pub depfile_token_max : ℕ
depfile_token_max = 4096

abbrev pub backslash : ℕ
backslash = 92

unfoldable pub flush_token : List Bytes → Bytes → List Bytes
flush_token out [] = out
flush_token out (c ∷ token) = out ++ ((c ∷ token) ∷ [])

unfoldable pub append_char : Bytes → ℕ → Option Bytes
append_char token c =
    if leb depfile_token_max (length token + 1) then none else some (token ++ (c ∷ []))

unfoldable pub is_line_end : ℕ → Bool
is_line_end c = c == 10 || c == 13

unfoldable pub is_blank : ℕ → Bool
is_blank c = c == b' ' || c == 9 || is_line_end c

-- The loop over the characters after the colon, and after a backslash.
unfoldable mutual
  pub read_from : List Bytes → Bytes → Bytes → Option (List Bytes)
  read_from out token [] = some (flush_token out token)
  read_from out token (c ∷ text) = elim (c == backslash) [
    | true ↦ read_escaped out token text
    | false ↦ elim (is_blank c) [
      | true ↦ read_from (flush_token out token) [] text
      | false ↦ append_char token c >>= λ longer. read_from out longer text
    ]
  ]

  pub read_escaped : List Bytes → Bytes → Bytes → Option (List Bytes)
  read_escaped out token [] = some (flush_token out token)
  read_escaped out token (next ∷ text) = elim (is_line_end next) [
    | true ↦ read_from (flush_token out token) [] text
    | false ↦ append_char token next >>= λ longer. read_from out longer text
  ]

-- `strchr(text, ':')`: how many characters come before the colon, and what comes after it.
unfoldable pub after_colon : Bytes → Option (ℕ × Bytes)
after_colon [] = none
after_colon (c ∷ text) =
    if c == b':'
    then some (0, text)
    else (after_colon text >>= λ (before, rest). some (suc before, rest))

abbrev first_char : Bytes → ℕ
first_char [] = 0
first_char (c ∷ text) = c

unfoldable pub colon_belongs_to_a_drive : Bytes → ℕ → Bool
colon_belongs_to_a_drive text before =
    before == 1 && fs_path_is_absolute (first_char text ∷ b':' ∷ b'/' ∷ [])

-- Only the colon after one character may be passed, so the loop has two rounds at most.
unfoldable pub prerequisites : Bytes → Option Bytes
prerequisites text = after_colon text >>= λ (before, rest).
    if colon_belongs_to_a_drive text before
    then (after_colon rest >>= λ (more, later). some later)
    else some rest

unfoldable pub depfile_parse : Bytes → Option (List Bytes)
depfile_parse text = prerequisites text >>= λ rest. read_from [] [] rest

-- A file that is not there has no prerequisites.
unfoldable pub depfile_read : Option Bytes → Option (List Bytes)
depfile_read file = file >>= depfile_parse
