-- ===== src/Util/StrMap/Refines.antt =====
-- src/util/str_map.c: its operations keep the map well formed and refine a partial function on keys.
use molto.Base.{
  ℕ, suc, ◌+◌, ◌*◌, ◌<◌, ◌≡◌, refl, sym, subst, ap, ◌∙◌, Bytes, Bool, true, false, Bool-cases,
  Option, none, some, Option-cases, List, [], ◌∷◌, ◌++◌, ◌==◌, ==_iff, ◌⊎◌, inl, inr, leb,
  if◌then◌else◌, arith, length, length-append, set, length-set,
}
use molto.Util.StrMap.{
  StrMap, Index, slot_at, home_slot, key_at, with_value, probe, room_for_one, replace, value_in,
  str_map_create, str_map_put, str_map_get,
}
use molto.Util.StrMap.Slots.{Leads}
use molto.Util.StrMap.Indexed.{IsIndexed, IsIndexed-set, rebuild_index-Rebuilt}
use molto.Util.StrMap.Probe.{probe_lem}
use molto.Util.StrMap.Entries.{
  At, AreDistinct, Models, At-lt, At-key_at, At-of_lt, length-with_value, key_at-with_value,
  get-append_left, get-append_last,
}
use molto.Util.StrMap.Models.{updated, Models-with_value, AreDistinct-with_value}
use molto.Util.StrMap.Moves.{IsAbsent, Models-append, AreDistinct-append}

-- There is no index and no entry, or an index with room that leads to every entry.
abbrev pub IsReachable : {V : Type 0} → List (Bytes × V) → Index → Type 0
IsReachable entries index =
    ((length index ≡ 0) × (length entries ≡ 0))
    ⊎ (IsIndexed entries (length entries) index × (length entries < length index))

-- The map stands for a function on keys.
pub record Refines {V : Type 0} (map : StrMap V) (f : Bytes → Option V) : Type 0 where
  pub distinct : AreDistinct map.entries
  pub models : Models map.entries f
  pub reachable : IsReachable map.entries map.index

pub has_index : (index : Index) → 0 < length index → (length index == 0) ≡ false
has_index index h = ground arith

module _ {V : Type 0} where
  pub Refines-create : Refines {V = V} str_map_create (λ _. none)
  unfolding str_map_create
  Refines-create = record {
    distinct = λ i j key v w a b. absurd (cc a);
    models = λ key v. ((λ (i, at). absurd (cc at)), λ e. absurd (cc e));
    reachable = inl (refl, refl);
  }

  -- The values of a key, by the places of its entry.
  pub Models-absent :
      (entries : List (Bytes × V)) (f : Bytes → Option V) (key : Bytes)
      → Models entries f
      → IsAbsent entries key
      → f key ≡ none
  Models-absent entries f key models absent = elim (Option-cases (f key)) [
    | inl e ↦ e
    | inr (v, e) ↦
        let (i, at) = (models key v).1 e in
        absurd (absent i (At-lt entries i key v at) (At-key_at entries i key v at))
  ]

  -- The value at a place whose key is known.
  pub found_value :
      (entries : List (Bytes × V)) (i : ℕ) (key : Bytes)
      → i < length entries
      → key_at entries i ≡ key
      → (v : V) × At entries i key v
  found_value entries i key l e =
      let (v, at) = At-of_lt entries i l in (v, subst (λ k. At entries i k v) e at)

  get_found :
      (map : StrMap V) (key : Bytes) (slot : ℕ) (found : Bool)
      → 0 < length map.index
      → probe map.entries map.index key ≡ some (slot, found)
      → str_map_get map key
        ≡ some (if found then value_in map.entries (slot_at map.index slot) else none)
  unfolding str_map_get
  get_found map key slot found h e = rw (str_map_get, has_index map.index h) (rw e refl)

  value_in_lem :
      (entries : List (Bytes × V)) (i : ℕ) (key : Bytes) (v : V)
      → At entries i key v
      → value_in entries (some i) ≡ some v
  value_in_lem entries i key v e = rw (value_in, e) refl

  -- A lookup ends, with what the function has at the key.
  pub str_map_get-Refines :
      (map : StrMap V) (f : Bytes → Option V) (key : Bytes)
      → Refines map f
      → str_map_get map key ≡ some (f key)
  unfolding str_map_get
  str_map_get-Refines map f key h = elim h.reachable [
    | inl (empty, none_there) ↦
        let absent : f key ≡ none =
          Models-absent map.entries f key h.models λ i l. absurd (omega arith) in
        rw (str_map_get, (==_iff (length map.index) 0).1 empty) (ap some (sym absent))
    | inr (indexed, room) ↦ elim (probe_lem map.entries map.index key indexed room) [
      | inl (t, e, l, free, path, absent) ↦
          get_found map key t false (omega arith) e
          ∙ ap some (sym (Models-absent map.entries f key h.models absent))
      | inr (t, i, e, at, l, q) ↦
          let (v, there) = found_value map.entries i key l q in
          get_found map key t true (omega arith) e
          ∙ ap some (
              ap (value_in map.entries) at
              ∙ value_in_lem map.entries i key v there
              ∙ sym ((h.models key v).0 (i, there)))
    ]
  ]

  -- The index that an entry is put into has room for it and leads to the others.
  room_for_one_lem :
      (map : StrMap V)
      → IsReachable map.entries map.index
      → (index : Index) × (room_for_one map ≡ some index)
        × IsIndexed map.entries (length map.entries) index
        × (suc (length map.entries) < length index)
  unfolding room_for_one
  room_for_one_lem map (inl (empty, none_there)) =
      let (index, e, size, indexed) = rebuild_index-Rebuilt 16 map.entries (omega arith) in
      (index, rw (room_for_one, (==_iff (length map.index) 0).1 empty) e, indexed, omega arith)
  room_for_one_lem map (inr (indexed, room)) =
      let full = leb (length map.index * 7) ((length map.entries + 1) * 10) in
      let there = has_index map.index (omega arith) in
      elim (Bool-cases full) [
        | inl grow ↦
            let (index, e, size, sound) =
              rebuild_index-Rebuilt (length map.index * 2) map.entries (omega arith) in
            (index, rw (room_for_one, there) (rw grow e), sound, omega arith)
        | inr fits ↦
            (map.index, rw (room_for_one, there) (rw fits refl), indexed, ground (arith, fits))
      ]

  -- The index does not depend on the values.
  IsIndexed-keys :
      (old new : List (Bytes × V)) (count : ℕ) (index : Index)
      → ((i : ℕ) → i < count → key_at new i ≡ key_at old i)
      → IsIndexed old count index
      → IsIndexed new count index
  IsIndexed-keys old new count index same h = record {
    full = h.full;
    valid = h.valid;
    leads = λ i l.
        let (t, path, at) = h.leads i l in
        (t, subst (λ k. Leads index (home_slot (length index) k) t) (sym (same i l)) path, at);
  }

  put_found :
      (map : StrMap V) (key : Bytes) (value : V) (index : Index) (slot : ℕ) (found : Bool)
      → room_for_one map ≡ some index
      → probe map.entries index key ≡ some (slot, found)
      → str_map_put map key value
        ≡ some (
            if found then replace map index (slot_at index slot) value else record map {
              entries = map.entries ++ ((key, value) ∷ []);
              index = set index slot (some (length map.entries));
            })
  unfolding str_map_put
  put_found map key value index slot found r e = rw (str_map_put, r) (rw e refl)

  -- What an operation comes to.
  abbrev pub Becomes : Option (StrMap V) → (Bytes → Option V) → Type 0
  Becomes result f = (map : StrMap V) × (result ≡ some map) × Refines map f

  -- A put ends, and changes the function at its key.
  pub str_map_put-Refines :
      (map : StrMap V) (f : Bytes → Option V) (key : Bytes) (value : V)
      → Refines map f
      → Becomes (str_map_put map key value) (updated f key (some value))
  str_map_put-Refines map f key value h =
      let (index, roomy, indexed, room) = room_for_one_lem map h.reachable in
      elim (probe_lem map.entries index key indexed (omega arith)) [
        | inl (t, e, l, free, path, absent) ↦
            let entries = map.entries ++ ((key, value) ∷ []) in
            let placed = set index t (some (length map.entries)) in
            let new : StrMap V = record map { entries = entries; index = placed } in
            let count = length-append map.entries ((key, value) ∷ []) in
            let keys : IsIndexed entries (length map.entries) index =
              IsIndexed-keys map.entries entries (length map.entries) index
                (key_at-left map.entries key value) indexed in
            let key_here : key_at entries (length map.entries) ≡ key =
              At-key_at entries (length map.entries) key value
                (get-append_last map.entries key value) in
            let sound : IsIndexed entries (suc (length map.entries)) placed =
              IsIndexed-set entries (length map.entries) index t keys l free
                (subst (λ k. Leads index (home_slot (length index) k) t) (sym key_here) path) in
            (
              new,
              put_found map key value index t false roomy e,
              record {
                distinct = AreDistinct-append map.entries key value absent h.distinct;
                models = Models-append map.entries f key value absent h.models;
                reachable = inr (
                  subst (λ n. IsIndexed entries n placed) (omega arith) sound,
                  omega (arith, length-set index t (some (length map.entries))),
                );
              },
            )
        | inr (t, i, e, at, l, q) ↦
            let (old, there) = found_value map.entries i key l q in
            let entries = with_value map.entries i value in
            let new : StrMap V = replace map index (some i) value in
            let count = length-with_value map.entries i value in
            (
              new,
              put_found map key value index t true roomy e
                  ∙ ap (λ s. some (replace map index s value)) at,
              record {
                distinct = AreDistinct-with_value map.entries i key old value there h.distinct;
                models = Models-with_value map.entries i f key old value there h.distinct h.models;
                reachable = inr (
                  subst (λ n. IsIndexed entries n index) (sym count)
                      (IsIndexed-keys map.entries entries (length map.entries) index
                        (λ j m. key_at-with_value map.entries i j value) indexed),
                  omega arith,
                );
              },
            )
      ]
    where
      key_at-left :
          (entries : List (Bytes × V)) (k : Bytes) (v : V) (i : ℕ)
          → i < length entries
          → key_at (entries ++ ((k, v) ∷ [])) i ≡ key_at entries i
      key_at-left entries k v i l =
          let (w, at) = At-of_lt entries i l in
          At-key_at (entries ++ ((k, v) ∷ [])) i (key_at entries i) w
            (get-append_left entries ((k, v) ∷ []) i l ∙ at)
