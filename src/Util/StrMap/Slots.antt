-- ===== src/Util/StrMap/Slots.antt =====
-- src/util/str_map.c's index: it has an empty slot when it is not full, and a walk along its slots
-- comes to one.
use molto.Base.{
  ℕ, zero, suc, ◌+◌, ◌-◌, ◌%◌, ◌<◌, ◌≡◌, ◌≢◌, refl, sym, subst, ◌∙◌, Option, none, some,
  Option-cases, [], ◌∷◌, ◌⊎◌, inl, inr, if◌then◌else◌, leb, arith, length, set, replicate,
  length-set, get_or-set_ne, le-cases,
}
use molto.Util.StrMap.{Index, slot_at, next_slot, place_from}

abbrev taken : Option ℕ → ℕ
taken none = 0
taken (some i) = 1

-- How many slots are taken.
abbrev pub fullness : Index → ℕ
fullness [] = 0
fullness (slot ∷ index) = taken slot + fullness index

pub fullness_empty : (n : ℕ) → fullness (replicate n none) ≡ 0
fullness_empty zero = refl
fullness_empty (suc n) = omega (arith, fullness_empty n)

pub fullness-set :
    (index : Index) (slot i : ℕ)
    → slot < length index
    → slot_at index slot ≡ none
    → fullness (set index slot (some i)) ≡ suc (fullness index)
fullness-set [] slot i h e = absurd (omega arith)
fullness-set (none ∷ index) zero i h e = omega arith
fullness-set (some j ∷ index) zero i h e = absurd (cc e)
fullness-set (s ∷ index) (suc slot) i h e = omega (arith, fullness-set index slot i (omega arith) e)

-- Not every slot is taken.
pub empty_slot :
    (index : Index)
    → fullness index < length index
    → (z : ℕ) × (z < length index) × (slot_at index z ≡ none)
empty_slot [] h = absurd (omega arith)
empty_slot (none ∷ index) h = (0, omega arith, refl)
empty_slot (some i ∷ index) h =
    let (z, l, e) = empty_slot index (omega arith) in (suc z, omega arith, e)

-- The next slot is the one after, or the first.
next_slot-cases :
    (capacity s : ℕ)
    → s < capacity
    → ((suc s < capacity) × (next_slot capacity s ≡ suc s))
      ⊎ ((suc s ≡ capacity) × (next_slot capacity s ≡ 0))
next_slot-cases capacity s h = elim (le-cases capacity (suc s)) [
  | inl last ↦ inr (omega arith, wraps (omega arith))
  | inr inside ↦ inl (inside, stays (omega arith))
]
  where
    wraps : s + 1 ≡ capacity → (s + 1) % capacity ≡ 0
    wraps e = grind arith

    stays : s + 1 < capacity → (s + 1) % capacity ≡ suc s
    stays l = grind arith

-- The steps from a slot on to another.
abbrev pub distance : ℕ → ℕ → ℕ → ℕ
distance capacity s z = if leb s z then z - s else z + capacity - s

pub distance-next :
    (capacity s z : ℕ)
    → s < capacity
    → z < capacity
    → s ≢ z
    → suc (distance capacity (next_slot capacity s) z) ≡ distance capacity s z
distance-next capacity s z hs hz ne = elim (next_slot-cases capacity s hs) [
  | inl (l, e) ↦ rw e (ground arith)
  | inr (l, e) ↦ rw e (ground arith)
]

pub next_slot-lt : (capacity s : ℕ) → s < capacity → next_slot capacity s < capacity
next_slot-lt capacity s h = omega arith

-- From one slot the walk over taken slots leads to another.
pub data Leads (index : Index) : ℕ → ℕ → Type 0 where
  here : {s : ℕ} → Leads index s s
  on :
      {s t i : ℕ}
      → slot_at index s ≡ some i
      → Leads index (next_slot (length index) s) t
      → Leads index s t

-- An empty slot that is filled stops no walk.
pub Leads-set :
    (index : Index) (t : ℕ) (v : Option ℕ) (s u : ℕ)
    → slot_at index t ≡ none
    → Leads index s u
    → Leads (set index t v) s u
Leads-set index t v s u e here = here
Leads-set index t v s u e (on full rest) =
    on (get_or-set_ne index t s v none (λ q. absurd (cc (full, e, q))) ∙ full) (
      subst (λ c. Leads (set index t v) (next_slot c s) u) (sym (length-set index t v))
        (Leads-set index t v (next_slot (length index) s) u e rest))

-- With an empty slot in reach, an entry is placed in the first empty slot of the walk.
pub place_from_lem :
    (n : ℕ) (index : Index) (z s i : ℕ)
    → slot_at index z ≡ none
    → z < length index
    → s < length index
    → distance (length index) s z < n
    → (t : ℕ) × (t < length index)
      × (slot_at index t ≡ none)
      × Leads index s t
      × (place_from n index s i ≡ some (set index t (some i)))
unfolding place_from
place_from_lem zero index z s i e lz ls d = absurd (omega arith)
place_from_lem (suc n) index z s i e lz ls d = elim (Option-cases (slot_at index s)) [
  | inl free ↦ (s, ls, free, here, rw (place_from, free) refl)
  | inr (j, full) ↦
      let ne : s ≢ z = λ q. absurd (cc (full, e, q)) in
      let step = distance-next (length index) s z ls lz ne in
      let (t, lt, free, path, same) =
        place_from_lem n index z (next_slot (length index) s) i e lz
          (next_slot-lt (length index) s ls) (omega arith) in
      (t, lt, free, on full path, rw (place_from, full) same)
]
