-- ===== src/Services/Ir/Validate/Options.antt =====
-- Which options src/services/ir_validate.c lets a plugin name.
use molto.Base.{
  Bool, false, ◌||◌, ◌&&◌, ◌≡◌, ◌↔◌, refl, ap, ◌∙◌, true, not, Option, none, some, List, [], ◌∷◌,
  ◌++◌, ==_iff, Bytes, bytes_eq_iff, is_some, All, Bool-cases, Option-cases, inl, inr, and_left,
  and_right, and_intro, or_intro,
}
use molto.Services.Ir.{Opt}
use molto.Services.Ir.Paths.{strip_prefix, strip_prefix-splits}
use molto.Services.Ir.Validate.{
  MatchKind, match_exact, match_prefix, match_contains, ForbiddenOption, rule, forbidden,
  starts_with, contains, matches, none_match, options_allowed,
}

-- The option is one that the rule names: it is the text, begins with it or has it somewhere.
abbrev pub Names : ForbiddenOption → Bytes → Type 0
Names r value = elim r.kind [
  | match_exact ↦ value ≡ r.text
  | match_prefix ↦ (rest : Bytes) × (value ≡ r.text ++ rest)
  | match_contains ↦ (before : Bytes) × (rest : Bytes) × (value ≡ before ++ (r.text ++ rest))
]

strip_prefix-append : (p rest : Bytes) → strip_prefix p (p ++ rest) ≡ some rest
unfolding strip_prefix
strip_prefix-append [] rest = refl
strip_prefix-append (x ∷ p) rest = rw ((==_iff x x).1 refl) (strip_prefix-append p rest)

starts_with_iff :
    (text value : Bytes)
    → (starts_with text value ≡ true) ↔ ((rest : Bytes) × (value ≡ text ++ rest))
unfolding starts_with
starts_with_iff text value = (
  (λ e. elim (Option-cases (strip_prefix text value)) [
    | inl failed ↦ absurd (cc (e, ap is_some failed))
    | inr (rest, f) ↦ (rest, strip_prefix-splits text value f)
  ]),
  (λ (rest, e).
      ap (λ v. is_some (strip_prefix text v)) e ∙ ap is_some (strip_prefix-append text rest)),
)

contains-found :
    (text value : Bytes)
    → contains text value ≡ true
    → (before : Bytes) × (rest : Bytes) × (value ≡ before ++ (text ++ rest))
unfolding contains
contains-found text [] e = let (rest, f) = (starts_with_iff text []).0 e in ([], rest, f)
contains-found text (c ∷ value) e = elim (Bool-cases (starts_with text (c ∷ value))) [
  | inl here ↦ let (rest, f) = (starts_with_iff text (c ∷ value)).0 here in ([], rest, f)
  | inr later ↦
      let (before, rest, f) = contains-found text value (rw later at e) in
      (c ∷ before, rest, ap (◌∷◌ c) f)
]

contains-starts : (text s : Bytes) → starts_with text s ≡ true → contains text s ≡ true
unfolding contains
contains-starts text [] h = h
contains-starts text (c ∷ s) h = or_intro (starts_with text (c ∷ s)) (contains text s) (inl h)

contains-finds : (text before rest : Bytes) → contains text (before ++ (text ++ rest)) ≡ true
unfolding contains
contains-finds text [] rest =
    contains-starts text (text ++ rest) ((starts_with_iff text (text ++ rest)).1 (rest, refl))
contains-finds text (c ∷ before) rest =
    or_intro (starts_with text (c ∷ (before ++ (text ++ rest))))
      (contains text (before ++ (text ++ rest))) (inr (contains-finds text before rest))

matches_kind :
    (text : Bytes) (kind : MatchKind) (value : Bytes)
    → (matches (rule text kind) value ≡ true) ↔ Names (rule text kind) value
unfolding matches
matches_kind text match_exact value = bytes_eq_iff value text
matches_kind text match_prefix value = starts_with_iff text value
matches_kind text match_contains value = (
  contains-found text value,
  λ (before, rest, e). ap (contains text) e ∙ contains-finds text before rest,
)

matches_iff : (r : ForbiddenOption) (value : Bytes) → (matches r value ≡ true) ↔ Names r value
matches_iff r value = matches_kind r.text r.kind value

-- An option that has no value, or one that no rule names.
abbrev pub IsHarmless : List ForbiddenOption → Option Bytes → Type 0
IsHarmless rules none = Unit
IsHarmless rules (some value) = All (λ r. ¬ Names r value) rules

none_match_iff :
    (rules : List ForbiddenOption) (value : Option Bytes)
    → (none_match rules value ≡ true) ↔ IsHarmless rules value
unfolding none_match
none_match_iff rules none = ((λ e. tt), (λ h. refl))
none_match_iff [] (some value) = ((λ e. tt), (λ h. refl))
none_match_iff (r ∷ rules) (some value) = (
  (λ e. (
    (λ n. cc (
      and_left (not (matches r value)) (none_match rules (some value)) e,
      (matches_iff r value).1 n,
    )),
    (none_match_iff rules (some value)).0
        (and_right (not (matches r value)) (none_match rules (some value)) e),
  )),
  (λ (h, hs). elim (Bool-cases (matches r value)) [
    | inl m ↦ absurd (h ((matches_iff r value).0 m))
    | inr m ↦ rw m ((none_match_iff rules (some value)).1 hs)
  ]),
)

-- `options_allowed` accepts exactly the lists of options of which no one loads code, passes the
-- rules by, redirects a tool or names an output, as the table of forbidden options has it.
pub options_allowed_iff :
    (options : List Opt)
    → (options_allowed options ≡ true) ↔ All (λ (o : Opt). IsHarmless forbidden o.value) options
unfolding options_allowed
options_allowed_iff [] = ((λ e. tt), (λ h. refl))
options_allowed_iff (o ∷ options) = (
  (λ e. (
    (none_match_iff forbidden o.value).0
        (and_left (none_match forbidden o.value) (options_allowed options) e),
    (options_allowed_iff options).0
        (and_right (none_match forbidden o.value) (options_allowed options) e),
  )),
  (λ (h, hs).
      and_intro (none_match forbidden o.value) (options_allowed options)
        ((none_match_iff forbidden o.value).1 h) ((options_allowed_iff options).1 hs)),
)

abbrev pub AreHarmless : List Opt → Type 0
AreHarmless options = All (λ (o : Opt). IsHarmless forbidden o.value) options

-- Options that count in the document of a plugin only.
pub harmless_if :
    (from_plugin : Bool) (options : List Opt)
    → (not from_plugin || options_allowed options) ≡ true
    → from_plugin ≡ true
    → AreHarmless options
harmless_if true options h e = (options_allowed_iff options).0 h
harmless_if false options h e = absurd (cc e)

pub both_harmless_if :
    (from_plugin : Bool) (options links : List Opt)
    → (not from_plugin || options_allowed options && options_allowed links) ≡ true
    → from_plugin ≡ true
    → AreHarmless options × AreHarmless links
both_harmless_if true options links h e = (
  (options_allowed_iff options).0 (and_left (options_allowed options) (options_allowed links) h),
  (options_allowed_iff links).0 (and_right (options_allowed options) (options_allowed links) h),
)
both_harmless_if false options links h e = absurd (cc e)
