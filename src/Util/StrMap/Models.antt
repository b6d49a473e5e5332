-- ===== src/Util/StrMap/Models.antt =====
-- src/util/str_map.c: the partial function that the entries stand for, after each operation.
use molto.Base.{
  ℕ, ◌≡◌, ◌≢◌, refl, sym, subst, ap, ◌∙◌, Bytes, bytes_eq, bytes_eq_iff, bytes-cases, Option, some,
  some_eq, List, ◌⊎◌, inl, inr, if◌then◌else◌, if_split, get_elem?, eq-cases,
}
use molto.Util.StrMap.{with_value}
use molto.Util.StrMap.Entries.{
  At, Holds, AreDistinct, Models, At-lt, At-key_at, get-with_value_self, get-with_value_ne,
}

module _ {V : Type 0} where
  -- The function with a key's value changed, or without the key.
  abbrev pub updated : (Bytes → Option V) → Bytes → Option V → Bytes → Option V
  updated f key value j = if bytes_eq key j then value else f j

  updated_same :
      (f : Bytes → Option V) (key j : Bytes) (value : Option V)
      → key ≡ j
      → updated f key value j ≡ value
  updated_same f key j value e = rw ((bytes_eq_iff key j).1 e) refl

  updated_other :
      (f : Bytes → Option V) (key j : Bytes) (value : Option V)
      → key ≢ j
      → updated f key value j ≡ f j
  updated_other f key j value ne =
      if_split (λ o. o ≡ f j) (bytes_eq key j) value (f j)
        (λ e. absurd (ne ((bytes_eq_iff key j).0 e))) λ _. refl

  -- Entries whose places carry over, but for the ones with a key, model the function changed at it.
  pub Models-updated :
      (old new : List (Bytes × V)) (f : Bytes → Option V) (key : Bytes) (value : Option V)
      → Models old f
      → ((j : Bytes) (v : V) → key ≢ j → Holds old j v → Holds new j v)
      → ((j : Bytes) (v : V) → key ≢ j → Holds new j v → Holds old j v)
      → ((v : V) → Holds new key v → value ≡ some v)
      → ((v : V) → value ≡ some v → Holds new key v)
      → Models new (updated f key value)
  Models-updated old new f key value h there back found kept j v = elim (bytes-cases key j) [
    | inl e ↦ (
      λ holds. updated_same f key j value e ∙ found v (subst (λ k. Holds new k v) (sym e) holds),
      λ q. subst (λ k. Holds new k v) e (kept v (sym (updated_same f key j value e) ∙ q)),
    )
    | inr ne ↦ (
      λ holds. updated_other f key j value ne ∙ (h j v).0 (back j v ne holds),
      λ q. there j v ne ((h j v).1 (sym (updated_other f key j value ne) ∙ q)),
    )
  ]

  -- The places of the entries after a write of a value.
  with_value-At :
      (entries : List (Bytes × V)) (i : ℕ) (key : Bytes) (old value : V)
      → At entries i key old
      → (j : ℕ) (k : Bytes) (w : V) → At (with_value entries i value) j k w
      → ((i ≡ j) × (key ≡ k) × (value ≡ w)) ⊎ ((i ≢ j) × At entries j k w)
  with_value-At entries i key old value h j k w there = elim (eq-cases i j) [
    | inl same ↦
        let here : At (with_value entries i value) i key value =
          subst (λ m. At (with_value entries i value) i m value) (At-key_at entries i key old h)
            (get-with_value_self entries i value (At-lt entries i key old h)) in
        let pair : (key, value) ≡ (k, w) =
          some_eq
            (sym here ∙ subst (λ m. At (with_value entries i value) m k w) (sym same) there) in
        inl (same, ap (λ (e : Bytes × V). e.0) pair, ap (λ (e : Bytes × V). e.1) pair)
    | inr ne ↦ inr (ne, sym (get-with_value_ne entries i j value ne) ∙ there)
  ]

  pub Models-with_value :
      (entries : List (Bytes × V)) (i : ℕ) (f : Bytes → Option V) (key : Bytes) (old value : V)
      → At entries i key old
      → AreDistinct entries
      → Models entries f
      → Models (with_value entries i value) (updated f key (some value))
  Models-with_value entries i f key old value h distinct models =
      let inside = At-lt entries i key old h in
      let here : At (with_value entries i value) i key value =
        subst (λ m. At (with_value entries i value) i m value) (At-key_at entries i key old h)
          (get-with_value_self entries i value inside) in
      Models-updated entries (with_value entries i value) f key (some value) models
        (λ k v ne (j, at). (
          j,
          get-with_value_ne entries i j value (λ q.
                ne (ap (λ (e : Bytes × V). e.0) (some_eq (sym h ∙ ap (get_elem? entries) q ∙ at))))
              ∙ at,
        ))
        (λ k v ne (j, at). elim (with_value-At entries i key old value h j k v at) [
          | inl (q, e, w) ↦ absurd (ne e)
          | inr (q, before) ↦ (j, before)
        ])
        (λ v (j, at). elim (with_value-At entries i key old value h j key v at) [
          | inl (q, e, w) ↦ ap some w
          | inr (q, before) ↦ absurd (q (distinct i j key old v h before))
        ])
        λ v e. (i, subst (At (with_value entries i value) i key) (some_eq e) here)

  pub AreDistinct-with_value :
      (entries : List (Bytes × V)) (i : ℕ) (key : Bytes) (old value : V)
      → At entries i key old
      → AreDistinct entries
      → AreDistinct (with_value entries i value)
  AreDistinct-with_value entries i key old value h distinct a b k v w at_a at_b =
      elim (with_value-At entries i key old value h a k v at_a) [
        | inl (p, e, x) ↦ elim (with_value-At entries i key old value h b k w at_b) [
          | inl (q, d, y) ↦ sym p ∙ q
          | inr (q, before) ↦
              absurd (q (distinct i b key old w h (subst (λ m. At entries b m w) (sym e) before)))
        ]
        | inr (p, first) ↦ elim (with_value-At entries i key old value h b k w at_b) [
          | inl (q, d, y) ↦
              absurd (p (distinct i a key old v h (subst (λ m. At entries a m v) (sym d) first)))
          | inr (q, before) ↦ distinct a b k v w first before
        ]
      ]
