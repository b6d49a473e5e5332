-- ===== src/Util/StrMap/Moves.antt =====
-- src/util/str_map.c: the entries after a push at the end and after a swap into a hole.
use molto.Base.{
  ℕ, suc, ◌-◌, ◌<◌, ◌≡◌, ◌≢◌, refl, sym, subst, ap, ◌∙◌, Bytes, Option, none, some, some_eq, List,
  [], ◌∷◌, ◌++◌, ◌==◌, ◌⊎◌, inl, inr, if◌then◌else◌, if_split, if_elim, arith, length,
  length-append, get_elem?, set, take, length-take, length-set, eq-cases, le-cases,
}
use molto.Util.StrMap.{key_at, swap_out}
use molto.Util.StrMap.Entries.{
  At, Holds, AreDistinct, Models, At-lt, At-key_at, At-of_lt, get-append_left, get-append_last,
  get_take, get_set_self, get_set_ne,
}
use molto.Util.StrMap.Models.{updated, Models-updated}

module _ {V : Type 0} where
  append-At :
      (entries : List (Bytes × V)) (key : Bytes) (value : V) (j : ℕ) (k : Bytes) (w : V)
      → At (entries ++ ((key, value) ∷ [])) j k w
      → ((j ≡ length entries) × (key ≡ k) × (value ≡ w)) ⊎ At entries j k w
  append-At entries key value j k w h = elim (le-cases (length entries) j) [
    | inl past ↦
        let inside = At-lt (entries ++ ((key, value) ∷ [])) j k w h in
        let last : j ≡ length entries = omega (arith, length-append entries ((key, value) ∷ [])) in
        let pair : (key, value) ≡ (k, w) = some_eq (
          sym (get-append_last entries key value)
          ∙ ap (get_elem? (entries ++ ((key, value) ∷ []))) (sym last)
          ∙ h) in
        inl (last, ap (λ (e : Bytes × V). e.0) pair, ap (λ (e : Bytes × V). e.1) pair)
    | inr within ↦ inr (sym (get-append_left entries ((key, value) ∷ []) j within) ∙ h)
  ]

  -- No entry has the key.
  abbrev pub IsAbsent : List (Bytes × V) → Bytes → Type 0
  IsAbsent entries key = (i : ℕ) → i < length entries → key_at entries i ≢ key

  not-At :
      (entries : List (Bytes × V)) (key : Bytes) (i : ℕ) (v : V)
      → IsAbsent entries key
      → At entries i key v
      → ⊥
  not-At entries key i v absent at =
      absent i (At-lt entries i key v at) (At-key_at entries i key v at)

  pub Models-append :
      (entries : List (Bytes × V)) (f : Bytes → Option V) (key : Bytes) (value : V)
      → IsAbsent entries key
      → Models entries f
      → Models (entries ++ ((key, value) ∷ [])) (updated f key (some value))
  Models-append entries f key value absent models =
      let new = entries ++ ((key, value) ∷ []) in
      Models-updated entries new f key (some value) models
        (λ k v ne (j, at).
          (j, get-append_left entries ((key, value) ∷ []) j (At-lt entries j k v at) ∙ at))
        (λ k v ne (j, at). elim (append-At entries key value j k v at) [
          | inl (q, e, w) ↦ absurd (ne e)
          | inr before ↦ (j, before)
        ])
        (λ v (j, at). elim (append-At entries key value j key v at) [
          | inl (q, e, w) ↦ ap some w
          | inr before ↦ absurd (not-At entries key j v absent before)
        ])
        λ v e.
          (length entries, get-append_last entries key value ∙ ap (λ w. some (key, w)) (some_eq e))

  pub AreDistinct-append :
      (entries : List (Bytes × V)) (key : Bytes) (value : V)
      → IsAbsent entries key
      → AreDistinct entries
      → AreDistinct (entries ++ ((key, value) ∷ []))
  AreDistinct-append entries key value absent distinct a b k v w at_a at_b =
      elim (append-At entries key value a k v at_a) [
        | inl (p, e, x) ↦ elim (append-At entries key value b k w at_b) [
          | inl (q, d, y) ↦ p ∙ sym q
          | inr before ↦
              absurd (not-At entries key b w absent (subst (λ m. At entries b m w) (sym e) before))
        ]
        | inr first ↦ elim (append-At entries key value b k w at_b) [
          | inl (q, d, y) ↦
              absurd (not-At entries key a v absent (subst (λ m. At entries a m v) (sym d) first))
          | inr before ↦ distinct a b k v w first before
        ]
      ]

  -- Where an entry was before the swap: its own place, or the last one.
  abbrev CameFrom : List (Bytes × V) → ℕ → ℕ → ℕ → Type 0
  CameFrom entries pos j i = ((j ≢ pos) × (i ≡ j)) ⊎ ((j ≡ pos) × (i ≡ length entries - 1))

  swap_out_lem :
      (entries : List (Bytes × V)) (pos : ℕ) (moved : Bytes × V)
      → get_elem? entries (length entries - 1) ≡ some moved
      → swap_out entries pos
        ≡ take
            (length entries - 1)
            (if pos == length entries - 1 then entries else set entries pos moved)
  swap_out_lem entries pos moved e = rw (swap_out, e) refl

  pub length-swap_out :
      (entries : List (Bytes × V)) (pos : ℕ)
      → pos < length entries
      → suc (length (swap_out entries pos)) ≡ length entries
  length-swap_out entries pos h =
      let last = length entries - 1 in
      let (v, e) = At-of_lt entries last (omega arith) in
      let filled = set entries pos (key_at entries last, v) in
      let same : length (if pos == last then entries else filled) ≡ length entries =
        if_elim (λ (x : List (Bytes × V)). length x ≡ length entries) (pos == last) entries filled
          refl (length-set entries pos (key_at entries last, v)) in
      let taken = length-take last (if pos == last then entries else filled) in
      ap (λ (x : List (Bytes × V)). suc (length x)) (swap_out_lem entries pos _ e) ∙ omega arith

  swap_out-get :
      (entries : List (Bytes × V)) (pos j : ℕ)
      → pos < length entries
      → suc j < length entries
      → ((j ≢ pos) × (get_elem? (swap_out entries pos) j ≡ get_elem? entries j))
        ⊎ ((j ≡ pos)
            × (get_elem? (swap_out entries pos) j ≡ get_elem? entries (length entries - 1)))
  swap_out-get entries pos j h l =
      let last = length entries - 1 in
      let (v, e) = At-of_lt entries last (omega arith) in
      let moved : Bytes × V = (key_at entries last, v) in
      let filled = if pos == last then entries else set entries pos moved in
      let start : get_elem? (swap_out entries pos) j ≡ get_elem? filled j =
        ap (λ (x : List (Bytes × V)). get_elem? x j) (swap_out_lem entries pos moved e)
        ∙ get_take last filled j (omega arith) in
      elim (eq-cases j pos) [
        | inl same ↦
            let to_last : get_elem? filled j ≡ get_elem? entries last =
              if_split (λ (x : List (Bytes × V)). get_elem? x j ≡ get_elem? entries last)
                (pos == last) entries (set entries pos moved)
                (λ q. absurd (ground (arith, q, same, l)))
                λ _.
                  ap (get_elem? (set entries pos moved)) same
                  ∙ get_set_self entries pos moved h
                  ∙ sym e in
            inr (same, start ∙ to_last)
        | inr ne ↦
            let stays : get_elem? filled j ≡ get_elem? entries j =
              if_elim (λ (x : List (Bytes × V)). get_elem? x j ≡ get_elem? entries j) (pos == last)
                entries (set entries pos moved) refl
                (get_set_ne entries pos j moved (λ q. ne (sym q))) in
            inl (ne, start ∙ stays)
      ]

  -- An entry after the swap was one before it, at another place than the hole.
  swap_out-At :
      (entries : List (Bytes × V)) (pos j : ℕ) (k : Bytes) (w : V)
      → pos < length entries
      → At (swap_out entries pos) j k w
      → (i : ℕ) × At entries i k w × CameFrom entries pos j i × (suc j < length entries)
  swap_out-At entries pos j k w h at =
      let within = At-lt (swap_out entries pos) j k w at in
      let size = length-swap_out entries pos h in
      elim (swap_out-get entries pos j h (omega arith)) [
        | inl (ne, e) ↦ (j, sym e ∙ at, inl (ne, refl), omega arith)
        | inr (q, e) ↦ (length entries - 1, sym e ∙ at, inr (q, refl), omega arith)
      ]

  -- An entry at another place than the hole is still there.
  swap_out-kept :
      (entries : List (Bytes × V)) (pos i : ℕ) (k : Bytes) (w : V)
      → pos < length entries
      → i ≢ pos
      → At entries i k w
      → Holds (swap_out entries pos) k w
  swap_out-kept entries pos i k w h ne at =
      let within = At-lt entries i k w at in
      elim (le-cases (length entries - 1) i) [
        | inl last ↦
            let end : i ≡ length entries - 1 = omega arith in
            elim (swap_out-get entries pos pos h (omega (arith, λ (q : i ≡ pos). ne q))) [
              | inl (other, e) ↦ absurd (other refl)
              | inr (q, e) ↦ (pos, e ∙ ap (get_elem? entries) (sym end) ∙ at)
            ]
        | inr inside ↦ elim (swap_out-get entries pos i h (omega arith)) [
          | inl (other, e) ↦ (i, e ∙ at)
          | inr (q, e) ↦ absurd (ne q)
        ]
      ]

  pub Models-swap_out :
      (entries : List (Bytes × V)) (pos : ℕ) (f : Bytes → Option V) (key : Bytes) (value : V)
      → At entries pos key value
      → AreDistinct entries
      → Models entries f
      → Models (swap_out entries pos) (updated f key none)
  Models-swap_out entries pos f key value here distinct models =
      let h = At-lt entries pos key value here in
      Models-updated entries (swap_out entries pos) f key none models
        (λ k v ne (i, at).
          swap_out-kept entries pos i k v h
            (λ q. ne (
              ap (λ (e : Bytes × V). e.0)
                (some_eq (sym here ∙ ap (get_elem? entries) (sym q) ∙ at))))
            at)
        (λ k v ne (j, at).
          let (i, before, from, l) = swap_out-At entries pos j k v h at in (i, before))
        (λ v (j, at).
          let (i, before, from, l) = swap_out-At entries pos j key v h at in
          absurd (elsewhere j i from l (distinct pos i key value v here before)))
        λ v e. absurd (cc e)
    where
      elsewhere : (j i : ℕ) → CameFrom entries pos j i → suc j < length entries → pos ≡ i → ⊥
      elsewhere j i (inl (ne, q)) l e = ne (sym q ∙ sym e)
      elsewhere j i (inr (q, last)) l e = omega arith

  pub AreDistinct-swap_out :
      (entries : List (Bytes × V)) (pos : ℕ)
      → pos < length entries
      → AreDistinct entries
      → AreDistinct (swap_out entries pos)
  AreDistinct-swap_out entries pos h distinct a b k v w at_a at_b =
      let (i, first, from_i, la) = swap_out-At entries pos a k v h at_a in
      let (j, second, from_j, lb) = swap_out-At entries pos b k w h at_b in
      same a b i j from_i from_j la lb (distinct i j k v w first second)
    where
      same :
          (a b i j : ℕ)
          → CameFrom entries pos a i
          → CameFrom entries pos b j
          → suc a < length entries
          → suc b < length entries
          → i ≡ j
          → a ≡ b
      same a b i j (inl (n, p)) (inl (m, q)) la lb e = sym p ∙ e ∙ q
      same a b i j (inl (n, p)) (inr (m, q)) la lb e = absurd (omega arith)
      same a b i j (inr (n, p)) (inl (m, q)) la lb e = absurd (omega arith)
      same a b i j (inr (n, p)) (inr (m, q)) la lb e = n ∙ sym m
