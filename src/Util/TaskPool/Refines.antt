-- ===== src/Util/TaskPool/Refines.antt =====
-- The deque implements a sequence of tasks: push at the bottom, pop there, steal at the top.
use molto.Base.{
  ℕ, zero, suc, ◌+◌, ◌-◌, ◌*◌, ◌<◌, ◌≤◌, ◌≡◌, refl, sym, ap, ◌∙◌, subst, Bool, true, false, ◌&&◌,
  Option, none, some, List, [], ◌∷◌, ◌++◌, length, get_or, set, take, drop, replicate, ltb, ◌==◌,
  if◌then◌else◌, inl, inr, Bool-cases, length-append, length-take, length-drop, length-replicate,
  length-set, take-append_le, drop-append_le, take-set, take-suc, drop-get_or, drop-set,
  get_or-drop, arith, ltb→lt,
}
use molto.Util.TaskPool.{
  Deque, DequeInv, tasks, compact, deque_grow, store_bottom, deque_push_bottom, deque_pop_bottom,
  deque_steal_top,
}

module _ {ℓ} {A : Type ℓ} where
  take_zero : (xs : List A) (n : ℕ) → n ≡ 0 → take n xs ≡ []
  take_zero xs n e = rw e

  take-length : (xs ys : List A) (n : ℕ) → n ≡ length xs → take n (xs ++ ys) ≡ xs
  take-length [] ys n e = take_zero ys n e
  take-length (x ∷ xs) ys zero e = absurd (omega arith)
  take-length (x ∷ xs) ys (suc n) e = ap (◌∷◌ x) (take-length xs ys n (omega arith))

  length_slid :
      (xs : List A) (t n : ℕ)
      → t + n ≤ length xs
      → length (take n (drop t xs) ++ drop n xs) ≡ length xs
  length_slid xs t n h = omega (
    arith,
    length-append (take n (drop t xs)) (drop n xs),
    length-take n (drop t xs),
    length-drop t xs,
    length-drop n xs,
  )

  compact-DequeInv : (d : Deque A) → DequeInv d → DequeInv (compact d)
  unfolding compact
  compact-DequeInv d i = ground (arith, length_slid d.items d.top (d.bottom - d.top))

  tasks-compact : (d : Deque A) → DequeInv d → tasks (compact d) ≡ tasks d
  unfolding compact tasks
  tasks-compact d i = elim (Bool-cases (d.top == d.bottom)) [
    | inl e ↦ rw e (sym (take_zero (drop d.top d.items) (d.bottom - d.top) (ground arith)))
    | inr e ↦ rw e (elim (Bool-cases (d.bottom == d.capacity && ltb 0 d.top)) [
      | inl f ↦ rw f (
          take-length (take (d.bottom - d.top) (drop d.top d.items)) _ _ (
            omega (
              arith,
              length-take (d.bottom - d.top) (drop d.top d.items),
              length-drop d.top d.items,
            )))
      | inr f ↦ rw f
    ])
  ]

  store-DequeInv :
      (d : Deque A) (v : A) → DequeInv d → d.bottom < d.capacity → DequeInv (store_bottom d v)
  unfolding store_bottom
  store-DequeInv d v i h = omega (arith, length-set d.items d.bottom v)

  tasks-store :
      (d : Deque A) (v : A)
      → DequeInv d
      → d.bottom < d.capacity
      → tasks (store_bottom d v) ≡ tasks d ++ v ∷ []
  unfolding store_bottom tasks
  tasks-store d v i h =
      let live = d.bottom - d.top in
      let e : d.bottom ≡ d.top + live = omega arith in
      let f : d.bottom + 1 - d.top ≡ suc live = omega arith in
      rw f (
        subst
          (λ b.
            take (suc live) (drop d.top (set d.items b v))
            ≡ take live (drop d.top d.items) ++ v ∷ [])
          (sym e)
          (rw drop-set
            (take-set live (drop d.top d.items) v (omega (arith, length-drop d.top d.items)))))

module _ {ℓ} {A : Type ℓ} where
  -- What `deque_push_bottom` did to a deque that held `before`.
  pub record Pushed (before : List A) (v : A) (alloc : Bool) (r : Deque A × Bool) : Type ℓ where
    pub inv : DequeInv r.0
    pub holds : tasks r.0 ≡ (if r.1 then before ++ v ∷ [] else before)
    pub fails_by_alloc : alloc ≡ true → r.1 ≡ true

  -- What a removal did: nothing on an empty deque, else it took the task that `joined` puts back.
  pub data Removed (d : Deque A) (joined : List A → A → List A) (r : Deque A × Option A)
      : Type ℓ where
    empty : tasks d ≡ [] → r ≡ (d, none) → Removed d joined r
    took :
        (v : A) → r.1 ≡ some v → tasks d ≡ joined (tasks r.0) v → DequeInv r.0 → Removed d joined r

module _ {ℓ} {A : Type ℓ} (junk : A) where
  grow-DequeInv : (d : Deque A) → DequeInv d → DequeInv (deque_grow junk d)
  unfolding deque_grow
  grow-DequeInv d i =
      let next = if d.capacity == 0 then 16 else d.capacity * 2 in
      let pad = replicate (next - d.capacity) junk in
      ground (arith, length-append d.items pad, length-replicate (next - d.capacity) junk)

  tasks-grow : (d : Deque A) → DequeInv d → tasks (deque_grow junk d) ≡ tasks d
  unfolding deque_grow tasks
  tasks-grow d i =
      rw (drop-append_le d.top d.items _ (omega arith))
        (take-append_le _ _ _ (omega (arith, length-drop d.top d.items)))

  grow_room : (d : Deque A) → d.bottom ≡ d.capacity → d.bottom < (deque_grow junk d).capacity
  unfolding deque_grow
  grow_room d e = ground arith

  -- A push on a well-formed deque leaves it well-formed, appends the task at the bottom if it
  -- answers true and changes no task if it answers false, and it answers true whenever the
  -- allocator does.
  pub deque_push_bottom-Pushed :
      (alloc : Bool) (d : Deque A) (v : A)
      → DequeInv d
      → Pushed (tasks d) v alloc (deque_push_bottom junk alloc d v)
  unfolding deque_push_bottom
  deque_push_bottom-Pushed alloc d v i =
      let c = compact d in
      let ci = compact-DequeInv d i in
      let same = tasks-compact d i in
      elim (Bool-cases (c.bottom == c.capacity)) [
        | inr roomy ↦ rw roomy (record {
          inv = store-DequeInv c v ci (ground arith);
          holds = tasks-store c v ci (ground arith) ∙ ap (λ t. t ++ v ∷ []) same;
          fails_by_alloc = λ _. refl;
        })
        | inl full ↦ rw full (elim (Bool-cases alloc) [
          | inr bad ↦ rw bad (record { inv = ci; holds = same; fails_by_alloc = λ e. e })
          | inl good ↦
              let g = deque_grow junk c in
              let gi = grow-DequeInv c ci in
              let room = grow_room c (ground arith) in
              rw good (record {
                inv = store-DequeInv g v gi room;
                holds = tasks-store g v gi room ∙ ap (λ t. t ++ v ∷ []) (tasks-grow c ci ∙ same);
                fails_by_alloc = λ _. refl;
              })
        ])
      ]

  empty_tasks : (d : Deque A) → ltb d.top d.bottom ≡ false → tasks d ≡ []
  unfolding tasks
  empty_tasks d e = take_zero (drop d.top d.items) (d.bottom - d.top) (ground arith)

  split_bottom :
      (d : Deque A)
      → DequeInv d
      → d.top < d.bottom
      → tasks d
        ≡ tasks (record d { bottom = d.bottom - 1 }) ++ get_or d.items (d.bottom - 1) junk ∷ []
  unfolding tasks
  split_bottom d i h =
      let n = d.bottom - 1 - d.top in
      let e : d.bottom - d.top ≡ suc n = omega arith in
      let f : d.top + n ≡ d.bottom - 1 = omega arith in
      rw e (
        take-suc n (drop d.top d.items) junk (omega (arith, length-drop d.top d.items))
        ∙ ap (λ x. take n (drop d.top d.items) ++ x ∷ [])
            (get_or-drop d.top n d.items junk ∙ ap (λ k. get_or d.items k junk) f))

  split_top :
      (d : Deque A)
      → DequeInv d
      → d.top < d.bottom
      → tasks d ≡ get_or d.items d.top junk ∷ tasks (record d { top = d.top + 1 })
  unfolding tasks
  split_top d i h =
      let e : d.bottom - d.top ≡ suc (d.bottom - (d.top + 1)) = omega arith in
      let f : d.top + 1 ≡ suc d.top = omega arith in
      rw (e, drop-get_or d.top d.items junk (omega arith)) (rw f)

  -- The owner removes the last task that was pushed; an empty deque stays as it is.
  pub deque_pop_bottom-Removed :
      (d : Deque A) → DequeInv d → Removed d (λ ts v. ts ++ v ∷ []) (deque_pop_bottom junk d)
  unfolding deque_pop_bottom
  deque_pop_bottom-Removed d i = elim (Bool-cases (ltb d.top d.bottom)) [
    | inr e ↦ rw e (empty (empty_tasks d e) refl)
    | inl e ↦ rw e (
        took _ refl (split_bottom d i (ltb→lt _ _ e))
          (let h = ltb→lt d.top d.bottom e in omega arith))
  ]

  -- A thief removes the oldest task; an empty deque stays as it is.
  pub deque_steal_top-Removed :
      (d : Deque A) → DequeInv d → Removed d (λ ts v. v ∷ ts) (deque_steal_top junk d)
  unfolding deque_steal_top
  deque_steal_top-Removed d i = elim (Bool-cases (ltb d.top d.bottom)) [
    | inr e ↦ rw e (empty (empty_tasks d e) refl)
    | inl e ↦ rw e (
        took _ refl (split_top d i (ltb→lt _ _ e)) (let h = ltb→lt d.top d.bottom e in omega arith))
  ]

  -- On a well-formed deque the owner removes the last task that was pushed and a thief the oldest
  -- one; each leaves an empty deque as it is, and else a well-formed one with the other tasks in order.
  pub deque_removals-Removed :
      (d : Deque A)
      → DequeInv d
      → Removed d (λ ts v. ts ++ v ∷ []) (deque_pop_bottom junk d)
        × Removed d (λ ts v. v ∷ ts) (deque_steal_top junk d)
  deque_removals-Removed d i = (deque_pop_bottom-Removed d i, deque_steal_top-Removed d i)
