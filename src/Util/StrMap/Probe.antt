-- ===== src/Util/StrMap/Probe.antt =====
-- src/util/str_map.c's probe: it ends, and finds a key just when an entry has it.
use molto.Base.{
  ℕ, zero, suc, ◌<◌, ◌≡◌, ◌≢◌, refl, sym, subst, ◌∙◌, Bytes, bytes_eq, bytes_eq_iff, Bool, true,
  false, Bool-cases, Option, none, some, Option-cases, some_eq, List, ◌⊎◌, inl, inr, arith, length,
}
use molto.Util.StrMap.{Index, slot_at, home_slot, next_slot, key_at, probe_from, probe}
use molto.Util.StrMap.Slots.{empty_slot, distance, distance-next, next_slot-lt, Leads, here, on}
use molto.Util.StrMap.Indexed.{IsIndexed, distance-lt, home_slot-lt}

module _ {V : Type 0} where
  -- A probe came to an empty slot, and no walk from its start meets the key before it; or it came to
  -- an entry with the key.
  abbrev pub Probed : List (Bytes × V) → Index → Bytes → ℕ → Option (ℕ × Bool) → Type 0
  Probed entries index key s result =
      ((t : ℕ) × (result ≡ some (t, false))
        × (t < length index)
        × (slot_at index t ≡ none)
        × Leads index s t
        × ((u i : ℕ)
            → Leads index s u
            → slot_at index u ≡ some i
            → bytes_eq (key_at entries i) key ≡ false))
      ⊎ ((t i : ℕ) × (result ≡ some (t, true))
          × (slot_at index t ≡ some i)
          × (bytes_eq (key_at entries i) key ≡ true))

  -- One slot of the walk, its three cases.
  probe_free :
      (n : ℕ) (entries : List (Bytes × V)) (index : Index) (key : Bytes) (s : ℕ)
      → slot_at index s ≡ none
      → probe_from (suc n) entries index key s ≡ some (s, false)
  unfolding probe_from
  probe_free n entries index key s e = rw (probe_from, e) refl

  probe_hit :
      (n : ℕ) (entries : List (Bytes × V)) (index : Index) (key : Bytes) (s i : ℕ)
      → slot_at index s ≡ some i
      → bytes_eq (key_at entries i) key ≡ true
      → probe_from (suc n) entries index key s ≡ some (s, true)
  unfolding probe_from
  probe_hit n entries index key s i e h = rw (probe_from, e) (rw h refl)

  probe_miss :
      (n : ℕ) (entries : List (Bytes × V)) (index : Index) (key : Bytes) (s i : ℕ)
      → slot_at index s ≡ some i
      → bytes_eq (key_at entries i) key ≡ false
      → probe_from (suc n) entries index key s
        ≡ probe_from n entries index key (next_slot (length index) s)
  unfolding probe_from
  probe_miss n entries index key s i e h = rw (probe_from, e) (rw h refl)

  -- Before a walk's next slot stands an entry with another key.
  abbrev Misses : List (Bytes × V) → Index → Bytes → ℕ → Type 0
  Misses entries index key s =
      (u i : ℕ)
      → Leads index s u
      → slot_at index u ≡ some i
      → bytes_eq (key_at entries i) key ≡ false

  Misses-here :
      (entries : List (Bytes × V)) (index : Index) (key : Bytes) (s : ℕ)
      → slot_at index s ≡ none
      → Misses entries index key s
  Misses-here entries index key s e u i here f = absurd (cc (e, f))
  Misses-here entries index key s e u i (on full path) f = absurd (cc (e, full))

  Misses-on :
      (entries : List (Bytes × V)) (index : Index) (key : Bytes) (s j : ℕ)
      → slot_at index s ≡ some j
      → bytes_eq (key_at entries j) key ≡ false
      → Misses entries index key (next_slot (length index) s)
      → Misses entries index key s
  Misses-on entries index key s j e h rest u i here f =
      subst (λ k. bytes_eq (key_at entries k) key ≡ false) (some_eq (sym e ∙ f)) h
  Misses-on entries index key s j e h rest u i (on full path) f = rest u i path f

  probe_from-Probed :
      (n : ℕ) (entries : List (Bytes × V)) (index : Index) (key : Bytes) (z s : ℕ)
      → slot_at index z ≡ none
      → z < length index
      → s < length index
      → distance (length index) s z < n
      → Probed entries index key s (probe_from n entries index key s)
  probe_from-Probed zero entries index key z s ez lz ls d = absurd (omega arith)
  probe_from-Probed (suc n) entries index key z s ez lz ls d =
      elim (Option-cases (slot_at index s)) [
        | inl free ↦ inl (
          s,
          probe_free n entries index key s free,
          ls,
          free,
          here,
          Misses-here entries index key s free,
        )
        | inr (j, full) ↦ elim (Bool-cases (bytes_eq (key_at entries j) key)) [
          | inl hit ↦ inr (s, j, probe_hit n entries index key s j full hit, full, hit)
          | inr miss ↦
              let ne : s ≢ z = λ q. absurd (cc (full, ez, q)) in
              let step = distance-next (length index) s z ls lz ne in
              let next = next_slot (length index) s in
              let later =
                probe_from-Probed n entries index key z next ez lz
                  (next_slot-lt (length index) s ls) (omega arith) in
              let moved = probe_miss n entries index key s j full miss in
              elim later [
                | inl (t, e, l, free, path, misses) ↦ inl (
                  t,
                  moved ∙ e,
                  l,
                  free,
                  on full path,
                  Misses-on entries index key s j full miss misses,
                )
                | inr (t, i, e, at, hit) ↦ inr (t, i, moved ∙ e, at, hit)
              ]
        ]
      ]

  -- On an index with room, a probe ends: the key is in no entry, or in the entry of the slot found.
  pub probe_lem :
      (entries : List (Bytes × V)) (index : Index) (key : Bytes)
      → IsIndexed entries (length entries) index
      → length entries < length index
      → ((t : ℕ) × (probe entries index key ≡ some (t, false))
          × (t < length index)
          × (slot_at index t ≡ none)
          × Leads index (home_slot (length index) key) t
          × ((i : ℕ) → i < length entries → key_at entries i ≢ key))
        ⊎ ((t i : ℕ) × (probe entries index key ≡ some (t, true))
            × (slot_at index t ≡ some i)
            × (i < length entries)
            × (key_at entries i ≡ key))
  unfolding probe
  probe_lem entries index key h room =
      let (z, lz, ez) = empty_slot index (omega (arith, h.full)) in
      let home = home_slot (length index) key in
      let home_in = home_slot-lt (length index) key (omega arith) in
      let probed =
        probe_from-Probed (length index) entries index key z home ez lz home_in
          (distance-lt (length index) home z home_in lz) in
      elim probed [
        | inl (t, e, l, free, path, misses) ↦ inl (t, e, l, free, path, absent misses)
        | inr (t, i, e, at, hit) ↦
            inr (t, i, e, at, h.valid t i at, (bytes_eq_iff (key_at entries i) key).0 hit)
      ]
    where
      absent :
          Misses entries index key (home_slot (length index) key)
          → (i : ℕ) → i < length entries
          → key_at entries i ≢ key
      absent misses i l q =
          let (u, there, at) = h.leads i l in
          let path = subst (λ k. Leads index (home_slot (length index) k) u) q there in
          let same = (bytes_eq_iff (key_at entries i) key).1 q in
          absurd (cc (misses u i path at, same))
