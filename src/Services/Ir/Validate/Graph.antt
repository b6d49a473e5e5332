-- ===== src/Services/Ir/Validate/Graph.antt =====
-- The target graph of src/services/ir_validate.c: names, and the depth-first search for cycles.
use molto.Base.{
  ℕ, zero, suc, Bool, true, not, ◌&&◌, Option, none, some, List, [], ◌∷◌, length, get_elem?, set,
  get_or, replicate, if◌then◌else◌, Bytes, ◌>>=◌, is_some,
}
use molto.Services.Ir.{Target, opt_eq}

-- The index of the first target that has the name.
unfoldable pub find_target : List Target → Bytes → Option ℕ
find_target [] name = none
find_target (target ∷ targets) name =
    let later = find_target targets name >>= λ i. some (suc i) in
    if opt_eq target.name name then some 0 else later

unfoldable pub none_named : Option Bytes → List Target → Bool
none_named none targets = true
none_named (some name) [] = true
none_named (some name) (target ∷ targets) =
    not (opt_eq target.name name) && none_named (some name) targets

unfoldable pub names_are_unique : List Target → Bool
unfolding none_named
names_are_unique [] = true
names_are_unique (target ∷ targets) = none_named target.name targets && names_are_unique targets

-- `visit_mark`
pub data Mark : Type 0 where
  mark_none mark_open mark_done : Mark

-- The names that the target at an index depends on.
unfoldable pub depends : List Target → ℕ → List Bytes
depends targets i = elim (get_elem? targets i) [ none ↦ [] | some t ↦ t.depends_on ]

-- The loop of `acyclic_from` over the names, with the call for each.
unfoldable pub acyclic_all :
    (ℕ → List Mark → Option (List Mark)) → List Target → List Bytes → List Mark → Option (List Mark)
unfolding find_target
acyclic_all visit targets [] marks = some marks
acyclic_all visit targets (name ∷ names) marks = do
  next ← find_target targets name
  marks' ← visit next marks
  acyclic_all visit targets names marks'

-- `acyclic_from`: the marks it leaves, or `none` where it returns false. Each call below another
-- opens one more target, so as much fuel as there are targets and one is enough.
unfoldable pub acyclic_from : ℕ → List Target → ℕ → List Mark → Option (List Mark)
unfolding acyclic_all depends
acyclic_from zero targets i marks = none
acyclic_from (suc fuel) targets i marks =
    let names = depends targets i in
    let searched =
      acyclic_all (acyclic_from fuel targets) targets names (set marks i mark_open) >>= λ marks'.
      some (set marks' i mark_done) in
    elim (get_or marks i mark_none) [
      | mark_done ↦ some marks
      | mark_open ↦ none
      | mark_none ↦ searched
    ]

-- The loop of `graph_is_sound` from an index on, over `count` targets.
unfoldable pub acyclic_each : List Target → ℕ → ℕ → List Mark → Option (List Mark)
unfolding acyclic_from
acyclic_each targets i zero marks = some marks
acyclic_each targets i (suc count) marks = do
  marks' ← acyclic_from (suc (length targets)) targets i marks
  acyclic_each targets (suc i) count marks'

unfoldable pub graph_is_sound : List Target → Bool
unfolding names_are_unique acyclic_each
graph_is_sound targets =
    let marks = replicate (length targets) mark_none in
    names_are_unique targets && is_some (acyclic_each targets 0 (length targets) marks)
