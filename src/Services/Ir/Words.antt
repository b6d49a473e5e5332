-- ===== src/Services/Ir/Words.antt =====
-- The spelling tables of src/services/ir_service.c.
use molto.Base.{
  ℕ, ◌≡◌, refl, Option, none, some, List, [], ◌∷◌, Bytes, bytes_eq, bytes_eq_iff, codes,
  if◌then◌else◌, ◌==◌, Bool-cases, inl, inr, subst,
}
use molto.Services.Ir.{
  Scope, scope_target, scope_profile, scope_unit, Language, language_c, language_cpp, language_asm,
  TargetKind, executable, static_library, shared_library, object_files, test_binary, DepOrigin,
  from_registry, from_path, from_git, from_archive, DepScope, runtime, dev,
}

-- `ir_word`, whose value is an enumerator here.
module _ {A : Type 0} where
  unfoldable pub word_value : List (Bytes × A) → Option Bytes → Option A
  word_value words none = none
  word_value [] (some name) = none
  word_value ((word, value) ∷ words) (some name) =
      if bytes_eq word name then some value else word_value words (some name)

abbrev scopes : List (Bytes × Scope)
scopes =
    (codes "target", scope_target)
    ∷ (codes "profile", scope_profile)
    ∷ (codes "unit", scope_unit)
    ∷ []

abbrev languages : List (Bytes × Language)
languages = (codes "c", language_c) ∷ (codes "cpp", language_cpp) ∷ (codes "asm", language_asm) ∷ []

abbrev target_kinds : List (Bytes × TargetKind)
target_kinds =
    (codes "executable", executable)
    ∷ (codes "static", static_library)
    ∷ (codes "shared", shared_library)
    ∷ (codes "object", object_files)
    ∷ (codes "test", test_binary)
    ∷ []

abbrev dep_origins : List (Bytes × DepOrigin)
dep_origins =
    (codes "registry", from_registry)
    ∷ (codes "path", from_path)
    ∷ (codes "git", from_git)
    ∷ (codes "archive", from_archive)
    ∷ []

abbrev dep_scopes : List (Bytes × DepScope)
dep_scopes = (codes "runtime", runtime) ∷ (codes "dev", dev) ∷ []

-- `word_name`: the word of the first entry that holds the value, by the value's place in the enum.
module _ {A : Type 0} (number : A → ℕ) where
  unfoldable pub word_name : List (Bytes × A) → A → Option Bytes
  word_name [] value = none
  word_name ((word, v) ∷ words) value =
      if number v == number value then some word else word_name words value

abbrev scope_number : Scope → ℕ
scope_number scope_target = 0
scope_number scope_profile = 1
scope_number scope_unit = 2

abbrev language_number : Language → ℕ
language_number language_c = 0
language_number language_cpp = 1
language_number language_asm = 2

abbrev kind_number : TargetKind → ℕ
kind_number executable = 0
kind_number static_library = 1
kind_number shared_library = 2
kind_number object_files = 3
kind_number test_binary = 4

abbrev origin_number : DepOrigin → ℕ
origin_number from_registry = 0
origin_number from_path = 1
origin_number from_git = 2
origin_number from_archive = 3

abbrev dep_scope_number : DepScope → ℕ
dep_scope_number runtime = 0
dep_scope_number dev = 1

unfoldable pub ir_scope_name : Scope → Option Bytes
unfolding word_name
ir_scope_name = word_name scope_number scopes

unfoldable pub ir_scope_from_name : Option Bytes → Option Scope
unfolding word_value
ir_scope_from_name = word_value scopes

unfoldable pub ir_language_name : Language → Option Bytes
unfolding word_name
ir_language_name = word_name language_number languages

unfoldable pub ir_language_from_name : Option Bytes → Option Language
unfolding word_value
ir_language_from_name = word_value languages

unfoldable pub ir_target_kind_name : TargetKind → Option Bytes
unfolding word_name
ir_target_kind_name = word_name kind_number target_kinds

unfoldable pub ir_target_kind_from_name : Option Bytes → Option TargetKind
unfolding word_value
ir_target_kind_from_name = word_value target_kinds

unfoldable pub ir_dep_origin_name : DepOrigin → Option Bytes
unfolding word_name
ir_dep_origin_name = word_name origin_number dep_origins

unfoldable pub ir_dep_origin_from_name : Option Bytes → Option DepOrigin
unfolding word_value
ir_dep_origin_from_name = word_value dep_origins

unfoldable pub ir_dep_scope_name : DepScope → Option Bytes
unfolding word_name
ir_dep_scope_name = word_name dep_scope_number dep_scopes

unfoldable pub ir_dep_scope_from_name : Option Bytes → Option DepScope
unfolding word_value
ir_dep_scope_from_name = word_value dep_scopes

-- A property of all entries holds of a word that was read.
module _ {A : Type 0} (P : Bytes → A → Type 0) where
  abbrev EachEntry : List (Bytes × A) → Type 0
  EachEntry [] = Unit
  EachEntry ((w, v) ∷ words) = P w v × EachEntry words

  word_value-holds :
      (words : List (Bytes × A)) (word : Bytes) (value : A)
      → EachEntry words
      → word_value words (some word) ≡ some value
      → P word value
  unfolding word_value
  word_value-holds [] word value h e = absurd (cc e)
  word_value-holds ((w, v) ∷ words) word value (p, h) e = elim (Bool-cases (bytes_eq w word)) [
    | inl same ↦
        let f : w ≡ word = (bytes_eq_iff w word).0 same in
        let g : v ≡ value = cc (rw same at e) in subst (λ x. P x value) f (subst (P w) g p)
    | inr other ↦ word_value-holds words word value h (rw other at e)
  ]

abbrev pub Inverse : {A : Type 0} → (A → Option Bytes) → (Option Bytes → Option A) → Type 0
Inverse {A} write read =
    ((value : A) → read (write value) ≡ some value)
    × ((word : Bytes) (value : A) → read (some word) ≡ some value → write value ≡ some word)

scope_words : Inverse ir_scope_name ir_scope_from_name
unfolding ir_scope_name ir_scope_from_name bytes_eq
scope_words = (
  elim [ scope_target ↦ refl | scope_profile ↦ refl | scope_unit ↦ refl ],
  λ word value.
      word_value-holds (λ w v. ir_scope_name v ≡ some w) scopes word value
        (refl, (refl, (refl, tt))),
)

language_words : Inverse ir_language_name ir_language_from_name
unfolding ir_language_name ir_language_from_name bytes_eq
language_words = (
  elim [ language_c ↦ refl | language_cpp ↦ refl | language_asm ↦ refl ],
  λ word value.
      word_value-holds (λ w v. ir_language_name v ≡ some w) languages word value
        (refl, (refl, (refl, tt))),
)

target_kind_words : Inverse ir_target_kind_name ir_target_kind_from_name
unfolding ir_target_kind_name ir_target_kind_from_name bytes_eq
target_kind_words = (
  elim [
    | executable ↦ refl
    | static_library ↦ refl
    | shared_library ↦ refl
    | object_files ↦ refl
    | test_binary ↦ refl
  ],
  λ word value.
      word_value-holds (λ w v. ir_target_kind_name v ≡ some w) target_kinds word value
        (refl, (refl, (refl, (refl, (refl, tt))))),
)

dep_origin_words : Inverse ir_dep_origin_name ir_dep_origin_from_name
unfolding ir_dep_origin_name ir_dep_origin_from_name bytes_eq
dep_origin_words = (
  elim [ from_registry ↦ refl | from_path ↦ refl | from_git ↦ refl | from_archive ↦ refl ],
  λ word value.
      word_value-holds (λ w v. ir_dep_origin_name v ≡ some w) dep_origins word value
        (refl, (refl, (refl, (refl, tt)))),
)

dep_scope_words : Inverse ir_dep_scope_name ir_dep_scope_from_name
unfolding ir_dep_scope_name ir_dep_scope_from_name bytes_eq
dep_scope_words = (
  elim [ runtime ↦ refl | dev ↦ refl ],
  λ word value.
      word_value-holds (λ w v. ir_dep_scope_name v ≡ some w) dep_scopes word value
        (refl, (refl, tt)),
)

-- In each of the five vocabularies every enumerator has a word that reads back as it, and a word
-- that is read is the one that the enumerator is written by: the writer and the reader agree, and
-- no second spelling is accepted.
pub words-Inverse :
    Inverse ir_scope_name ir_scope_from_name
    × Inverse ir_language_name ir_language_from_name
    × Inverse ir_target_kind_name ir_target_kind_from_name
    × Inverse ir_dep_origin_name ir_dep_origin_from_name
    × Inverse ir_dep_scope_name ir_dep_scope_from_name
words-Inverse = (scope_words, language_words, target_kind_words, dep_origin_words, dep_scope_words)
