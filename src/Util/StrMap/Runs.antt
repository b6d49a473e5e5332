-- ===== src/Util/StrMap/Runs.antt =====
-- src/util/str_map.c: whole runs of its operations refine those on partial functions.
use molto.Base.{
  ℕ, ◌<◌, ◌≡◌, refl, sym, ap, ◌∙◌, Bytes, Bool, true, false, Option, none, some, ◌>>=◌, is_some,
  List, [], ◌∷◌, ==_iff, inl, inr, if◌then◌else◌, arith, length, get_elem?,
}
use molto.Util.StrMap.{
  StrMap, Index, slot_at, swap_out, rebuild_index, probe, remove_at, release, str_map_create,
  str_map_put, str_map_get, str_map_remove,
}
use molto.Util.StrMap.Indexed.{rebuild_index-Rebuilt}
use molto.Util.StrMap.Probe.{probe_lem}
use molto.Util.StrMap.Entries.{Models}
use molto.Util.StrMap.Models.{updated, Models-updated}
use molto.Util.StrMap.Moves.{length-swap_out, Models-swap_out, AreDistinct-swap_out}
use molto.Util.StrMap.Refines.{
  Refines, Refines-create, Becomes, has_index, found_value, Models-absent, str_map_get-Refines,
  str_map_put-Refines,
}

module _ {V : Type 0} where
  remove_found :
      (map : StrMap V) (key : Bytes) (slot : ℕ) (found : Bool)
      → 0 < length map.index
      → probe map.entries map.index key ≡ some (slot, found)
      → str_map_remove map key
        ≡ (if found then remove_at map (slot_at map.index slot) else some (false, map))
  unfolding str_map_remove
  remove_found map key slot found h e = rw (str_map_remove, has_index map.index h) (rw e refl)

  remove_at_lem :
      (map : StrMap V) (pos : ℕ) (index : Index)
      → rebuild_index (length map.index) (swap_out map.entries pos) ≡ some index
      → remove_at map (some pos)
        ≡ some (
          true,
          record {
            entries = swap_out map.entries pos;
            index = index;
            released = release (get_elem? map.entries pos) map.released;
          },
        )
  remove_at_lem map pos index e = rw (remove_at, e) refl

  -- The function is as it was where the key had no value.
  Models-unchanged :
      (entries : List (Bytes × V)) (f : Bytes → Option V) (key : Bytes)
      → f key ≡ none
      → Models entries f
      → Models entries (updated f key none)
  Models-unchanged entries f key e models =
      Models-updated entries entries f key none models (λ j v ne h. h) (λ j v ne h. h)
        (λ v h. sym e ∙ (models key v).0 h) λ v q. absurd (cc q)

  -- What a removal comes to: whether there was a value, and a map without the key.
  abbrev Removes : Option (Bool × StrMap V) → (Bytes → Option V) → Bytes → Type 0
  Removes result f key =
      (map : StrMap V) × (result ≡ some (is_some (f key), map)) × Refines map (updated f key none)

  pub str_map_remove-Refines :
      (map : StrMap V) (f : Bytes → Option V) (key : Bytes)
      → Refines map f
      → Removes (str_map_remove map key) f key
  unfolding str_map_remove
  str_map_remove-Refines map f key h = elim h.reachable [
    | inl (empty, none_there) ↦
        let absent = Models-absent map.entries f key h.models λ i l. absurd (omega arith) in
        (
          map,
          rw (str_map_remove, (==_iff (length map.index) 0).1 empty)
              (ap (λ b. some (b, map)) (ap is_some (sym absent))),
          unchanged absent,
        )
    | inr (indexed, room) ↦ elim (probe_lem map.entries map.index key indexed room) [
      | inl (t, e, l, free, path, missing) ↦
          let absent = Models-absent map.entries f key h.models missing in
          (
            map,
            remove_found map key t false (omega arith) e
                ∙ ap (λ b. some (b, map)) (ap is_some (sym absent)),
            unchanged absent,
          )
      | inr (t, i, e, at, l, q) ↦
          let (v, there) = found_value map.entries i key l q in
          let size = length-swap_out map.entries i l in
          let (index, rebuilt, same, sound) =
            rebuild_index-Rebuilt (length map.index) (swap_out map.entries i) (omega arith) in
          let new : StrMap V = record {
            entries = swap_out map.entries i;
            index = index;
            released = release (get_elem? map.entries i) map.released;
          } in
          (
            new,
            remove_found map key t true (omega arith) e
                ∙ ap (remove_at map) at
                ∙ remove_at_lem map i index rebuilt
                ∙ ap (λ b. some (b, new)) (ap is_some (sym ((h.models key v).0 (i, there)))),
            record {
              distinct = AreDistinct-swap_out map.entries i l h.distinct;
              models = Models-swap_out map.entries i f key v there h.distinct h.models;
              reachable = inr (sound, omega arith);
            },
          )
    ]
  ]
    where
      unchanged : f key ≡ none → Refines map (updated f key none)
      unchanged e = record {
        distinct = h.distinct;
        models = Models-unchanged map.entries f key e h.models;
        reachable = h.reachable;
      }

-- A change of the map.
pub data Change (V : Type 0) : Type 0 where
  put : Bytes → V → Change V
  remove : Bytes → Change V

module _ {V : Type 0} where
  unfoldable pub change : StrMap V → Change V → Option (StrMap V)
  change map (put key value) = str_map_put map key value
  change map (remove key) = str_map_remove map key >>= λ (there, rest). some rest

  unfoldable pub change_all : StrMap V → List (Change V) → Option (StrMap V)
  change_all map [] = some map
  change_all map (c ∷ changes) = change map c >>= λ next. change_all next changes

  -- The same changes of a function on keys.
  abbrev pub meant : (Bytes → Option V) → Change V → Bytes → Option V
  meant f (put key value) = updated f key (some value)
  meant f (remove key) = updated f key none

  abbrev pub meant_all : (Bytes → Option V) → List (Change V) → Bytes → Option V
  meant_all f [] = f
  meant_all f (c ∷ changes) = meant_all (meant f c) changes

  change-Becomes :
      (map : StrMap V) (f : Bytes → Option V) (c : Change V)
      → Refines map f
      → Becomes (change map c) (meant f c)
  unfolding change
  change-Becomes map f (put key value) h = str_map_put-Refines map f key value h
  change-Becomes map f (remove key) h =
      let (next, e, sound) = str_map_remove-Refines map f key h in
      (next, ap (λ o. o >>= λ (r : Bool × StrMap V). some (r.1)) e, sound)

  change_all-Becomes :
      (changes : List (Change V)) (map : StrMap V) (f : Bytes → Option V)
      → Refines map f
      → Becomes (change_all map changes) (meant_all f changes)
  unfolding change_all
  change_all-Becomes [] map f h = (map, refl, h)
  change_all-Becomes (c ∷ changes) map f h =
      let (next, e, sound) = change-Becomes map f c h in
      let (last, d, final) = change_all-Becomes changes next (meant f c) sound in
      (last, ap (λ o. o >>= λ (m : StrMap V). change_all m changes) e ∙ d, final)

  -- From an empty map, any puts and removals end, and every lookup in the map that they leave ends
  -- with what the same changes of a function on keys, first defined nowhere, make of the key.
  pub change_all-meant_all :
      (changes : List (Change V)) (key : Bytes)
      → (change_all str_map_create changes >>= λ map. str_map_get map key)
        ≡ some (meant_all (λ _. none) changes key)
  change_all-meant_all changes key =
      let (map, e, sound) = change_all-Becomes changes str_map_create (λ _. none) Refines-create in
      ap (λ o. o >>= λ (m : StrMap V). str_map_get m key) e
      ∙ str_map_get-Refines map (meant_all (λ _. none) changes) key sound
