-- ===== src/Util/Text/Tests.antt =====
-- Runs of src/util/text.c, and the theorems at concrete inputs.
use molto.Base.{◌+◌, ◌<◌, ◌≡◌, ◌≢◌, refl, some, ◌∷◌, ◌++◌, length, All, codes}
use molto.Util.Text.{
  tab, text_columns, text_column_of_byte, text_expand_tabs, text_elide_middle, ellipsis,
}
use molto.Util.Text.Elided.{Shown, text_elide_middle_lem}
use molto.Util.Text.Expanded.{text_expand_tabs_lem}

expands : text_expand_tabs (codes "a\tb") 4 16 ≡ some (codes "a   b")
unfolding text_expand_tabs
expands = refl

text_expand_tabs_lem_example :
    (length (codes "a   b") < 16)
    × All (λ c. c ≢ tab) (codes "a   b")
    × (length (codes "a   b") + 1 < 16
        → text_columns (codes "a   b") (length (codes "a   b"))
          ≡ text_column_of_byte (codes "a\tb") (length (codes "a\tb")) 4)
text_expand_tabs_lem_example = text_expand_tabs_lem (codes "a\tb") 4 16 expands

-- The second character of the text is two bytes long, and the cut falls into it.
elides :
    text_elide_middle (codes "a" ++ (0xc3 ∷ 0xa9 ∷ codes "bcdefgh")) 8
    ≡ some (codes "a" ++ (ellipsis ++ codes "gh"))
unfolding text_elide_middle
elides = refl

text_elide_middle_lem_example :
    (length (codes "a" ++ (ellipsis ++ codes "gh")) < 8)
    × Shown (codes "a" ++ (0xc3 ∷ 0xa9 ∷ codes "bcdefgh")) 8 (codes "a" ++ (ellipsis ++ codes "gh"))
text_elide_middle_lem_example =
    text_elide_middle_lem (codes "a" ++ (0xc3 ∷ 0xa9 ∷ codes "bcdefgh")) 8 elides
