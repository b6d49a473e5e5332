-- ===== src/Build/Depfile/Tests.antt =====
-- Small rules of src/build/depfile.c.
use molto.Base.{◌≡◌, refl, Bytes, List, [], ◌∷◌, ◌++◌, some, none, codes, arith}
use molto.Services.Ir.Paths.{fs_path_is_absolute}
use molto.Build.Depfile.{
  depfile_parse, prerequisites, after_colon, colon_belongs_to_a_drive, read_from, append_char,
  flush_token, is_blank, is_line_end,
}
use molto.Build.Depfile.RoundTrip.{
  Gap, space, continued, written_paths, depfile_parse-written_paths,
}

depfile_parse_two_lines :
    depfile_parse (codes "main.o: a\\ b.c \\\n  util.h\n")
    ≡ some (codes "a b.c" ∷ codes "util.h" ∷ [])
unfolding depfile_parse prerequisites after_colon colon_belongs_to_a_drive fs_path_is_absolute
    read_from append_char flush_token is_blank is_line_end
depfile_parse_two_lines = refl

depfile_parse_no_colon : depfile_parse (codes "main.o") ≡ none
unfolding depfile_parse prerequisites after_colon
depfile_parse_no_colon = refl

abbrev two_paths : List (Gap × List Gap × Bytes)
two_paths = (space, [], codes "a b") ∷ (continued, space ∷ [], codes "c") ∷ []

depfile_parse-written_paths_example :
    depfile_parse (codes "m.o" ++ b':' ∷ written_paths two_paths)
    ≡ some (codes "a b" ∷ codes "c" ∷ [])
unfolding is_line_end is_blank
depfile_parse-written_paths_example =
    depfile_parse-written_paths (codes "m.o") two_paths (refl, (refl, (refl, tt)))
      (λ e. absurd (cc e))
      (
        (omega arith, omega arith, (refl, (refl, (refl, tt)))),
        ((omega arith, omega arith, (refl, tt)), tt),
      )
