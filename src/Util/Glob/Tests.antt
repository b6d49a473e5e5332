-- ===== src/Util/Glob/Tests.antt =====
-- Runs of src/util/glob.c, and the theorems at concrete inputs.
use molto.Base.{◌≡◌, ◌↔◌, refl, true, false, some, codes, arith}
use molto.Util.Glob.{glob_match}
use molto.Util.Glob.Matches.{Matches}
use molto.Util.Glob.Decides.{Answers, glob_match-Answers}
use molto.Util.Glob.Plain.{glob_match-plain}

goes_back : glob_match (codes "src/*_test.?") (codes "src/a_tes_test.c") ≡ some true
unfolding glob_match
goes_back = refl

sets :
    (glob_match (codes "[]a]") (codes "]") ≡ some true)
    × (glob_match (codes "[a-]") (codes "-") ≡ some true)
    × (glob_match (codes "[!a-f]") (codes "g") ≡ some true)
    × (glob_match (codes "[a-f\\]]") (codes "]") ≡ some true)
    × (glob_match (codes "[a") (codes "[a") ≡ some true)
    × (glob_match (codes "[^a-f]") (codes "c") ≡ some false)
unfolding glob_match
sets = (refl, refl, refl, refl, refl, refl)

escapes :
    (glob_match (codes "\\*") (codes "*") ≡ some true)
    × (glob_match (codes "\\*") (codes "a") ≡ some false)
    × (glob_match (codes "a\\") (codes "a\\") ≡ some true)
unfolding glob_match
escapes = (refl, refl, refl)

glob_match-Answers_example :
    Answers (Matches (codes "*.[ch]") (codes "a.b.c")) (glob_match (codes "*.[ch]") (codes "a.b.c"))
glob_match-Answers_example = glob_match-Answers (codes "*.[ch]") (codes "a.b.c")

glob_match-plain_example :
    (glob_match (codes "main.c") (codes "main.h") ≡ some true) ↔ (codes "main.c" ≡ codes "main.h")
glob_match-plain_example = glob_match-plain (codes "main.c") (codes "main.h") (omega arith)
