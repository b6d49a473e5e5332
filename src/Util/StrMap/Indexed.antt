-- ===== src/Util/StrMap/Indexed.antt =====
-- src/util/str_map.c: the index that leads to the entries, how it is built, and what a probe finds.
use molto.Base.{
  ℕ, zero, suc, ◌+◌, ◌<◌, ◌≡◌, refl, sym, subst, ap, ap₂, ◌∙◌, Bytes, Option, none, some, ◌>>=◌,
  some_eq, List, [], ◌∷◌, ◌++◌, append-nil, append_assoc, inl, inr, arith, length, length-append,
  set, replicate, length-replicate, length-set, get_or-set_ne, get_or-set_self, eq-cases,
}
use molto.Util.StrMap.{Index, slot_at, home_slot, key_at, reinsert, rebuild_index}
use molto.Util.StrMap.Slots.{
  fullness, fullness_empty, fullness-set, empty_slot, distance, Leads, Leads-set, place_from_lem,
}

-- The first `count` entries are in the index, each where the walk from its key's home leads.
pub record IsIndexed {V : Type 0} (entries : List (Bytes × V)) (count : ℕ) (index : Index)
    : Type 0 where
  pub full : fullness index ≡ count
  pub valid : (slot i : ℕ) → slot_at index slot ≡ some i → i < count
  pub leads :
      (i : ℕ)
      → i < count
      → (t : ℕ) × Leads index (home_slot (length index) (key_at entries i)) t
        × (slot_at index t ≡ some i)

pub distance-lt :
    (capacity s z : ℕ) → s < capacity → z < capacity → distance capacity s z < capacity
distance-lt capacity s z h k = ground arith

pub home_slot-lt : (capacity : ℕ) (key : Bytes) → 0 < capacity → home_slot capacity key < capacity
home_slot-lt capacity key h = omega arith

module _ {V : Type 0} where
  -- An entry is placed in an empty slot that the walk from its key's home leads to.
  pub IsIndexed-set :
      (entries : List (Bytes × V)) (count : ℕ) (index : Index) (t : ℕ)
      → IsIndexed entries count index
      → t < length index
      → slot_at index t ≡ none
      → Leads index (home_slot (length index) (key_at entries count)) t
      → IsIndexed entries (suc count) (set index t (some count))
  IsIndexed-set entries count index t h l free path = record {
    full = omega (arith, fullness-set index t count l free, h.full);
    valid = λ slot i e. elim (eq-cases t slot) [
      | inl same ↦
          let here_too : some count ≡ some i =
            sym (get_or-set_self index t (some count) none l)
            ∙ ap (slot_at (set index t (some count))) same
            ∙ e in
          omega (arith, some_eq here_too)
      | inr other ↦
          let before = h.valid slot i (sym (get_or-set_ne index t slot _ none other) ∙ e) in
          omega arith
    ];
    leads = λ i k. elim (eq-cases count i) [
      | inl same ↦
          subst
            (λ j.
              (u : ℕ) × Leads (set index t (some count))
                (home_slot (length (set index t (some count))) (key_at entries j)) u
              × (slot_at (set index t (some count)) u ≡ some j))
            same (t, at_home count t path, get_or-set_self index t (some count) none l)
      | inr other ↦
          let (u, old, there) = h.leads i (omega arith) in
          (
            u,
            at_home i u old,
            get_or-set_ne index t u _ none (λ q. absurd (cc (free, there, q))) ∙ there,
          )
    ];
  }
    where
      at_home :
          (i u : ℕ)
          → Leads index (home_slot (length index) (key_at entries i)) u
          → Leads
              (set index t (some count))
              (home_slot (length (set index t (some count))) (key_at entries i))
              u
      at_home i u p =
          subst (λ c. Leads (set index t (some count)) (home_slot c (key_at entries i)) u)
            (sym (length-set index t (some count))) (Leads-set index t (some count) _ u free p)

  key_at-append :
      (before : List (Bytes × V)) (key : Bytes) (value : V) (after : List (Bytes × V))
      → key_at (before ++ (key, value) ∷ after) (length before) ≡ key
  key_at-append [] key value after = refl
  key_at-append (e ∷ before) key value after = key_at-append before key value after

  -- What reinserting comes to: an index of the same size that all entries are in.
  abbrev pub Rebuilt : List (Bytes × V) → ℕ → Option Index → Type 0
  Rebuilt entries capacity result =
      (index : Index) × (result ≡ some index)
      × (length index ≡ capacity)
      × IsIndexed entries (length entries) index

  reinsert-Rebuilt :
      (entries before after : List (Bytes × V)) (k : ℕ) (index : Index)
      → entries ≡ before ++ after
      → k ≡ length before
      → IsIndexed entries k index
      → length entries < length index
      → Rebuilt entries (length index) (reinsert index k after)
  unfolding reinsert
  reinsert-Rebuilt entries before [] k index e q h room =
      let count : k ≡ length entries =
        q ∙ ap (length {A = Bytes × V}) (sym (e ∙ append-nil before)) in
      (index, refl, refl, subst (λ n. IsIndexed entries n index) count h)
  reinsert-Rebuilt entries before ((key, value) ∷ after) k index e q h room =
      let total : length entries ≡ length before + suc (length after) =
        ap (length {A = Bytes × V}) e ∙ length-append before ((key, value) ∷ after) in
      let key_here : key_at entries k ≡ key =
        ap₂ (key_at {V = V}) e q ∙ key_at-append before key value after in
      let (z, lz, ez) = empty_slot index (omega (arith, h.full)) in
      let home = home_slot (length index) key in
      let home_in = home_slot-lt (length index) key (omega arith) in
      let (t, lt, free, path, placed) =
        place_from_lem (length index) index z home k ez lz home_in
          (distance-lt (length index) home z home_in lz) in
      let next = set index t (some k) in
      let sound : IsIndexed entries (suc k) next =
        IsIndexed-set entries k index t h lt free
          (subst (λ w. Leads index (home_slot (length index) w) t) (sym key_here) path) in
      let (final, done, size, indexed) =
        reinsert-Rebuilt entries (before ++ ((key, value) ∷ [])) after (suc k) next
          (e ∙ sym (append_assoc before ((key, value) ∷ []) after))
          (omega (arith, length-append before ((key, value) ∷ []))) sound
          (omega (arith, length-set index t (some k))) in
      (
        final,
        ap (λ o. o >>= λ (m : Index). reinsert m (suc k) after) placed ∙ done,
        size ∙ length-set index t (some k),
        indexed,
      )

  -- A rebuilt index leads to every entry.
  pub rebuild_index-Rebuilt :
      (capacity : ℕ) (entries : List (Bytes × V))
      → length entries < capacity
      → Rebuilt entries capacity (rebuild_index capacity entries)
  unfolding rebuild_index
  rebuild_index-Rebuilt capacity entries room =
      let size = length-replicate {A = Option ℕ} capacity none in
      let (index, e, same, indexed) =
        reinsert-Rebuilt entries [] entries 0 (replicate capacity none) refl refl
          (record {
            full = fullness_empty capacity;
            valid = λ slot i e. absurd (cc (e, nothing capacity slot));
            leads = λ i l. absurd (omega arith);
          })
          (omega arith) in
      (index, e, same ∙ size, indexed)
    where
      nothing : (n slot : ℕ) → slot_at (replicate n none) slot ≡ none
      nothing zero slot = refl
      nothing (suc n) zero = refl
      nothing (suc n) (suc slot) = nothing n slot
