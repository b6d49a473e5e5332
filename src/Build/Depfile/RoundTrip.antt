-- ===== src/Build/Depfile/RoundTrip.antt =====
-- src/build/depfile.c: prerequisites that are written with their blanks and backslashes escaped,
-- between any separators, are read back.
use molto.Base.{
  ℕ, suc, ◌+◌, ◌<◌, ◌≡◌, ◌≢◌, refl, sym, ap, ◌∙◌, Bytes, Bool, true, false, ◌||◌, some, ◌>>=◌, List,
  [], ◌∷◌, ◌++◌, append_assoc, append-nil, ◌==◌, inl, inr, eq-cases, if◌then◌else◌, if_split, arith,
  length, length-append, All, lt→not-leb,
}
use molto.Services.Ir.Paths.{fs_path_is_absolute}
use molto.Build.Depfile.{
  depfile_token_max, backslash, flush_token, append_char, is_line_end, is_blank, read_from,
  read_escaped, after_colon, colon_belongs_to_a_drive, prerequisites, depfile_parse,
}

-- A character of a path, as a compiler writes it.
abbrev pub written : ℕ → Bytes
written c = if is_blank c || c == backslash then backslash ∷ c ∷ [] else c ∷ []

abbrev pub written_path : Bytes → Bytes
written_path [] = []
written_path (c ∷ path) = written c ++ written_path path

-- A separator is a blank, or a line that is continued; `n` says which line end.
pub data Gap : Type 0 where
  space tab line_feed continued continued_return : Gap

abbrev pub gap : Gap → Bytes
gap space = b' ' ∷ []
gap tab = 9 ∷ []
gap line_feed = 10 ∷ []
gap continued = backslash ∷ 10 ∷ []
gap continued_return = backslash ∷ 13 ∷ []

abbrev pub gaps : List Gap → Bytes
gaps [] = []
gaps (g ∷ more) = gap g ++ gaps more

-- Each path stands after one gap and any more.
abbrev pub written_paths : List (Gap × List Gap × Bytes) → Bytes
written_paths [] = []
written_paths ((g, more, path) ∷ paths) =
    gap g ++ (gaps more ++ (written_path path ++ written_paths paths))

abbrev pub paths_of : List (Gap × List Gap × Bytes) → List Bytes
paths_of [] = []
paths_of ((g, more, path) ∷ paths) = path ∷ paths_of paths

-- A path that is not empty, fits in the buffer and has no line end.
abbrev pub IsPath : Bytes → Type 0
IsPath path =
    (0 < length path) × (length path < depfile_token_max) × All (λ c. is_line_end c ≡ false) path

gap-read_from :
    (g : Gap) (out : List Bytes) (token rest : Bytes)
    → read_from out token (gap g ++ rest) ≡ read_from (flush_token out token) [] rest
unfolding read_from is_blank is_line_end
gap-read_from space out token rest = refl
gap-read_from tab out token rest = refl
gap-read_from line_feed out token rest = refl
gap-read_from continued out token rest = refl
gap-read_from continued_return out token rest = refl

gaps-read_from :
    (more : List Gap) (out : List Bytes) (rest : Bytes)
    → read_from out [] (gaps more ++ rest) ≡ read_from out [] rest
unfolding flush_token
gaps-read_from [] out rest = refl
gaps-read_from (g ∷ more) out rest =
    ap (read_from out []) (append_assoc (gap g) (gaps more) rest)
    ∙ gap-read_from g out [] (gaps more ++ rest)
    ∙ gaps-read_from more out rest

append_char_room :
    (token : Bytes) (c : ℕ)
    → suc (length token) < depfile_token_max
    → append_char token c ≡ some (token ++ (c ∷ []))
unfolding append_char
append_char_room token c h = rw (append_char, lt→not-leb 4096 (length token + 1) (omega arith)) refl

read_escaped_plain :
    (c : ℕ) (out : List Bytes) (token rest : Bytes)
    → is_line_end c ≡ false
    → read_escaped out token (c ∷ rest) ≡ (append_char token c >>= λ t. read_from out t rest)
unfolding read_from
read_escaped_plain c out token rest plain = rw (read_escaped, plain) refl

read_from_plain :
    (c : ℕ) (out : List Bytes) (token rest : Bytes)
    → (c == backslash) ≡ false
    → is_blank c ≡ false
    → read_from out token (c ∷ rest) ≡ (append_char token c >>= λ t. read_from out t rest)
unfolding read_from
read_from_plain c out token rest ordinary solid = rw (read_from, ordinary) (rw solid refl)

or_false : (a b : Bool) → (a || b) ≡ false → (a ≡ false) × (b ≡ false)
or_false true b h = absurd (cc h)
or_false false b h = (refl, h)

written-read_from :
    (c : ℕ) (out : List Bytes) (token rest : Bytes)
    → is_line_end c ≡ false
    → suc (length token) < depfile_token_max
    → read_from out token (written c ++ rest) ≡ read_from out (token ++ (c ∷ [])) rest
unfolding read_from
written-read_from c out token rest plain room =
    let appended : (append_char token c >>= λ t. read_from out t rest)
        ≡ read_from out (token ++ (c ∷ [])) rest =
      ap (λ o. o >>= λ (t : Bytes). read_from out t rest) (append_char_room token c room) in
    if_split (λ w. read_from out token (w ++ rest) ≡ read_from out (token ++ (c ∷ [])) rest)
      (is_blank c || c == backslash) (backslash ∷ c ∷ []) (c ∷ [])
      (λ _. read_escaped_plain c out token rest plain ∙ appended)
      λ ordinary.
        let (solid, other) = or_false (is_blank c) (c == backslash) ordinary in
        read_from_plain c out token rest other solid ∙ appended

written_path-read_from :
    (path : Bytes) (out : List Bytes) (token rest : Bytes)
    → length token + length path < depfile_token_max
    → All (λ c. is_line_end c ≡ false) path
    → read_from out token (written_path path ++ rest) ≡ read_from out (token ++ path) rest
written_path-read_from [] out token rest room plain =
    ap (λ t. read_from out t rest) (sym (append-nil token))
written_path-read_from (c ∷ path) out token rest room plain =
    ap (read_from out token) (append_assoc (written c) (written_path path) rest)
    ∙ written-read_from c out token (written_path path ++ rest) plain.0 (omega arith)
    ∙ written_path-read_from path out (token ++ (c ∷ [])) rest
        (omega (arith, length-append token (c ∷ []))) plain.1
    ∙ ap (λ t. read_from out t rest) (append_assoc token (c ∷ []) path)

flush_token_some :
    (out : List Bytes) (path : Bytes) → 0 < length path → flush_token out path ≡ out ++ (path ∷ [])
unfolding flush_token
flush_token_some out [] h = absurd (omega arith)
flush_token_some out (c ∷ path) h = refl

-- The paths that stand after a token, which is flushed by the first gap or the end of the text.
written_paths-read_from :
    (paths : List (Gap × List Gap × Bytes)) (out : List Bytes) (token : Bytes)
    → All IsPath (paths_of paths)
    → read_from out token (written_paths paths) ≡ some (flush_token out token ++ paths_of paths)
unfolding read_from
written_paths-read_from [] out token h = ap some (sym (append-nil (flush_token out token)))
written_paths-read_from ((g, more, path) ∷ paths) out token ((some_char, fits, plain), h) =
    let flushed = flush_token out token in
    gap-read_from g out token (gaps more ++ (written_path path ++ written_paths paths))
    ∙ gaps-read_from more flushed (written_path path ++ written_paths paths)
    ∙ written_path-read_from path flushed [] (written_paths paths) (omega arith) plain
    ∙ written_paths-read_from paths flushed path h
    ∙ ap (λ o. some (o ++ paths_of paths)) (flush_token_some flushed path some_char)
    ∙ ap some (append_assoc flushed (path ∷ []) (paths_of paths))

after_colon_lem :
    (target rest : Bytes)
    → All (λ c. (c == b':') ≡ false) target
    → after_colon (target ++ b':' ∷ rest) ≡ some (length target, rest)
unfolding after_colon
after_colon_lem [] rest h = refl
after_colon_lem (c ∷ target) rest h =
    rw (after_colon, h.0)
      (ap (λ o. o >>= λ (r : ℕ × Bytes). some (suc (r.0), r.1)) (after_colon_lem target rest h.1))

not_drive :
    (target rest : Bytes)
    → target ≢ b'/' ∷ []
    → colon_belongs_to_a_drive (target ++ b':' ∷ rest) (length target) ≡ false
unfolding colon_belongs_to_a_drive fs_path_is_absolute
not_drive [] rest h = refl
not_drive (c ∷ []) rest h = elim (eq-cases c b'/') [
  | inl e ↦ absurd (h (ap (λ d. d ∷ []) e))
  | inr ne ↦ ground (arith, ne)
]
not_drive (c ∷ d ∷ target) rest h = ground arith

-- The prerequisites that are written after a target and its colon, each with its blanks and
-- backslashes escaped and after one or more gaps (blanks, line ends or continued lines), are read
-- back in order. The target has no colon and is not `/`; a path has a character or more, fewer than
-- the buffer's size, and none that ends a line.
pub depfile_parse-written_paths :
    (target : Bytes) (paths : List (Gap × List Gap × Bytes))
    → All (λ c. (c == b':') ≡ false) target
    → target ≢ b'/' ∷ []
    → All IsPath (paths_of paths)
    → depfile_parse (target ++ b':' ∷ written_paths paths) ≡ some (paths_of paths)
unfolding depfile_parse prerequisites flush_token
depfile_parse-written_paths target paths no_colon not_root h =
    let text = target ++ b':' ∷ written_paths paths in
    rw (prerequisites, after_colon_lem target (written_paths paths) no_colon)
      (rw (not_drive target (written_paths paths) not_root) (written_paths-read_from paths [] [] h))
