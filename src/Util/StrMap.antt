-- ===== src/Util/StrMap.antt =====
-- src/util/str_map.c: the entries in a dense array, and an index of slots into it. An allocation is
-- taken to succeed, and `none` is a loop over the slots that did not end.
use Prim.Native.Nat.{bit_xor}
use molto.Base.{
  ℕ, zero, suc, ◌+◌, ◌-◌, ◌*◌, ◌%◌, ◌^◌, Bytes, Bool, true, false, Option, none, some, ◌>>=◌, List,
  [], ◌∷◌, ◌++◌, ◌==◌, leb, if◌then◌else◌, length, get_or, get_elem?, set, take, replicate,
  bytes_eq,
}
pub mod Slots
pub mod Indexed
pub mod Probe
pub mod Entries
pub mod Models
pub mod Moves
pub mod Refines
pub mod Runs
mod Tests

abbrev pub index_initial_capacity : ℕ
index_initial_capacity = 16

-- A slot is empty, or has the position of an entry.
abbrev pub Index : Type 0
Index = List (Option ℕ)

-- FNV-1a, 64 bits.
unfoldable pub hash_from : ℕ → Bytes → ℕ
hash_from hash [] = hash
hash_from hash (c ∷ key) = hash_from (bit_xor hash c * 1099511628211 % 2 ^ 64) key

unfoldable pub hash_key : Bytes → ℕ
hash_key key = hash_from 1469598103934665603 key

-- A capacity is a power of two, and `& mask` the remainder by it.
abbrev pub home_slot : ℕ → Bytes → ℕ
home_slot capacity key = hash_key key % capacity

abbrev pub next_slot : ℕ → ℕ → ℕ
next_slot capacity slot = (slot + 1) % capacity

abbrev pub slot_at : Index → ℕ → Option ℕ
slot_at index slot = get_or index slot none

-- `index[slot] = i`, at the first empty slot from one on.
unfoldable pub place_from : ℕ → Index → ℕ → ℕ → Option Index
place_from zero index slot i = none
place_from (suc n) index slot i = elim (slot_at index slot) [
  | none ↦ some (set index slot (some i))
  | some _ ↦ place_from n index (next_slot (length index) slot) i
]

-- `released` are the values given to `free_value`, the last first.
pub record StrMap (V : Type 0) : Type 0 where
  pub entries : List (Bytes × V)
  pub index : Index
  pub released : List V

module _ {V : Type 0} where
  abbrev pub key_at : List (Bytes × V) → ℕ → Bytes
  key_at [] i = []
  key_at ((key, value) ∷ entries) zero = key
  key_at (entry ∷ entries) (suc i) = key_at entries i

  -- The loop of `probe`: the slot, and whether the key is in it.
  unfoldable pub probe_from : ℕ → List (Bytes × V) → Index → Bytes → ℕ → Option (ℕ × Bool)
  probe_from zero entries index key slot = none
  probe_from (suc n) entries index key slot = elim (slot_at index slot) [
    | none ↦ some (slot, false)
    | some i ↦ elim (bytes_eq (key_at entries i) key) [
      | true ↦ some (slot, true)
      | false ↦ probe_from n entries index key (next_slot (length index) slot)
    ]
  ]

  unfoldable pub probe : List (Bytes × V) → Index → Bytes → Option (ℕ × Bool)
  probe entries index key =
      probe_from (length index) entries index key (home_slot (length index) key)

  -- The entries from position `i` on are put into the index.
  unfoldable pub reinsert : Index → ℕ → List (Bytes × V) → Option Index
  reinsert index i [] = some index
  reinsert index i ((key, value) ∷ entries) =
      place_from (length index) index (home_slot (length index) key) i >>= λ placed.
      reinsert placed (suc i) entries

  unfoldable pub rebuild_index : ℕ → List (Bytes × V) → Option Index
  rebuild_index capacity entries = reinsert (replicate capacity none) 0 entries

  unfoldable pub str_map_create : StrMap V
  str_map_create = record { entries = []; index = []; released = [] }

  -- The index that the key is put into: a new one, a larger one or the one there is.
  unfoldable pub room_for_one : StrMap V → Option Index
  room_for_one map =
      let capacity = length map.index in
      if capacity == 0
      then rebuild_index index_initial_capacity map.entries
      else if leb (capacity * 7) ((length map.entries + 1) * 10)
      then rebuild_index (capacity * 2) map.entries
      else some map.index

  abbrev pub with_value : List (Bytes × V) → ℕ → V → List (Bytes × V)
  with_value [] i value = []
  with_value ((key, _) ∷ entries) zero value = (key, value) ∷ entries
  with_value (entry ∷ entries) (suc i) value = entry ∷ with_value entries i value

  abbrev pub release : Option (Bytes × V) → List V → List V
  release none released = released
  release (some (_, value)) released = value ∷ released

  abbrev pub replace : StrMap V → Index → Option ℕ → V → StrMap V
  replace map index none value = record map { index = index }
  replace map index (some i) value = record {
    entries = with_value map.entries i value;
    index = index;
    released = release (get_elem? map.entries i) map.released;
  }

  unfoldable pub str_map_put : StrMap V → Bytes → V → Option (StrMap V)
  str_map_put map key value = room_for_one map >>= λ index.
      probe map.entries index key >>= λ (slot, found). some (
        if found then replace map index (slot_at index slot) value else record map {
          entries = map.entries ++ ((key, value) ∷ []);
          index = set index slot (some (length map.entries));
        })

  abbrev pub value_in : List (Bytes × V) → Option ℕ → Option V
  value_in entries none = none
  value_in entries (some i) = elim (get_elem? entries i) [
    | none ↦ none
    | some (_, value) ↦ some value
  ]

  unfoldable pub str_map_get : StrMap V → Bytes → Option (Option V)
  str_map_get map key =
      if length map.index == 0
      then some none
      else (probe map.entries map.index key >>= λ (slot, found).
          some (if found then value_in map.entries (slot_at map.index slot) else none))

  -- The last entry is moved into the hole.
  abbrev pub swap_out : List (Bytes × V) → ℕ → List (Bytes × V)
  swap_out entries pos =
      let last = length entries - 1 in
      elim (get_elem? entries last) [
        | none ↦ entries
        | some moved ↦ take last (if pos == last then entries else set entries pos moved)
      ]

  abbrev pub remove_at : StrMap V → Option ℕ → Option (Bool × StrMap V)
  remove_at map none = none
  remove_at map (some pos) =
      let entries = swap_out map.entries pos in
      rebuild_index (length map.index) entries >>= λ index. some (
        true,
        record {
          entries = entries;
          index = index;
          released = release (get_elem? map.entries pos) map.released;
        },
      )

  unfoldable pub str_map_remove : StrMap V → Bytes → Option (Bool × StrMap V)
  str_map_remove map key =
      if length map.index == 0
      then some (false, map)
      else (probe map.entries map.index key >>= λ (slot, found).
          if found then remove_at map (slot_at map.index slot) else some (false, map))

  unfoldable pub str_map_size : StrMap V → ℕ
  str_map_size map = length map.entries
