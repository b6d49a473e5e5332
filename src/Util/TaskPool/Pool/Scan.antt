-- ===== src/Util/TaskPool/Pool/Scan.antt =====
-- `pool_next_task`, run with no other thread in between: the own deque first, then every peer once
-- from a pseudo-random start.
use Prim.Native.Nat.{bit_xor}
use native.Mathlib.Decide.{ℕ_discrete, dec_le}
use native.Mathlib.Nat.{mod-lt, mod-eq_of_lt, add-mod_right}
use molto.Base.{
  ℕ, zero, suc, ◌+◌, ◌-◌, ◌*◌, ◌/◌, ◌%◌, ◌^◌, ◌<◌, ◌≤◌, ◌≢◌, ◌≡◌, sym, ap, ◌∙◌, subst, Option, none,
  some, List, [], length, All, All-get_or, All-set, length-set, get_or-set_ne, arith, leb, leb→le,
  ◌==◌, ==_iff, if◌then◌else◌, Bool-cases, inl, inr,
}
use molto.Util.TaskPool.{Deque, tasks, deque_pop_bottom, deque_steal_top}
use molto.Util.TaskPool.Refines.{
  Removed, empty, took as took_task, deque_pop_bottom-Removed, deque_steal_top-Removed,
}
use molto.Util.TaskPool.Pool.{word, Worker, Pool, nobody, worker_at, put_worker}
use molto.Util.TaskPool.Pool.Books.{IsSound}

-- The xorshift step on a `uint64_t`.
unfoldable pub next_rng : ℕ → ℕ
next_rng r =
    let a = bit_xor r (r * 2 ^ 13 % word) in
    let b = bit_xor a (a / 2 ^ 7) in bit_xor b (b * 2 ^ 17 % word)

-- Every index is met by a cyclic scan of as many rounds.
cyclic : (n start j : ℕ) → start < n → j < n → (k : ℕ) × (k < n) × ((start + k) % n ≡ j)
cyclic n start j h g = elim (dec_le start j) [
  | yes le ↦ (
    j - start,
    omega arith,
    let e : start + (j - start) ≡ j = omega arith in rw e (mod-eq_of_lt g),
  )
  | no gt ↦ (
    j + n - start,
    omega arith,
    let e : start + (j + n - start) ≡ j + n = omega arith in
        rw e (add-mod_right j n ∙ mod-eq_of_lt g),
  )
]

module _ {ℓ} {A : Type ℓ} (junk : A) where
  -- What a round does with the answer of the steal: return the task, or go on.
  steal_or : ℕ → Pool A → Pool A × Option A → Deque A × Option A → Pool A × Option A
  steal_or victim p rest (q, none) = rest
  steal_or victim p rest (q, some v) =
      (put_worker p victim (record (worker_at p victim) { queue = q }), some v)

  -- The `for` loop; `left` rounds remain.
  scan : ℕ → ℕ → ℕ → ℕ → Pool A → Pool A × Option A
  unfolding steal_or
  scan zero offset start self p = (p, none)
  scan (suc left) offset start self p =
      let victim = (start + offset) % length p.workers in
      let rest = scan left (offset + 1) start self p in
      let found = steal_or victim p rest (deque_steal_top junk (worker_at p victim).queue) in
      if victim == self then rest else found

  search_peers : ℕ → Pool A → Pool A × Option A
  unfolding scan next_rng
  search_peers self p =
      let count = length p.workers in
      let rng = next_rng (worker_at p self).rng in
      let p' = put_worker p self (record (worker_at p self) { rng = rng }) in
      if leb count 1 then (p, none) else scan count 0 (rng % count) self p'

  abbrev own_or_peers : ℕ → Pool A → Deque A × Option A → Pool A × Option A
  own_or_peers self p (q, some v) =
      (put_worker p self (record (worker_at p self) { queue = q }), some v)
  own_or_peers self p (q, none) = search_peers self p

  unfoldable pub pool_next_task : ℕ → Pool A → Pool A × Option A
  unfolding search_peers
  pool_next_task self p = own_or_peers self p (deque_pop_bottom junk (worker_at p self).queue)

  steal_or-none :
      (victim : ℕ) (p : Pool A) (rest : Pool A × Option A) {joined : List A → A → List A}
      (r : Deque A × Option A)
      → Removed (worker_at p victim).queue joined r
      → (steal_or victim p rest r).1 ≡ none
      → (rest.1 ≡ none) × (tasks (worker_at p victim).queue ≡ [])
  unfolding steal_or
  steal_or-none victim p rest (q, none) (empty t _) e = (e, t)
  steal_or-none victim p rest (q, none) (took_task v same _ _) e = cc
  steal_or-none victim p rest (q, some v) m e = cc

  -- A scan that found nothing has seen every peer at its offsets empty.
  scan-none :
      (left offset start self : ℕ) (p : Pool A)
      → 0 < length p.workers
      → All IsSound p.workers
      → (scan left offset start self p).1 ≡ none
      → (k : ℕ) → offset ≤ k
      → k < offset + left
      → (start + k) % length p.workers ≢ self
      → tasks (worker_at p ((start + k) % length p.workers)).queue ≡ []
  scan-none zero offset start self p n a e k lo hi ne = absurd (omega arith)
  scan-none (suc left) offset start self p n a e k lo hi ne =
      let victim = (start + offset) % length p.workers in
      let rest = scan left (offset + 1) start self p in
      let r = deque_steal_top junk (worker_at p victim).queue in
      let m =
        deque_steal_top-Removed junk _
          (All-get_or IsSound p.workers victim nobody a (mod-lt _ n)) in
      let go = λ (f : rest.1 ≡ none) (lo' : offset + 1 ≤ k).
        scan-none left (offset + 1) start self p n a f k lo' (omega arith) ne in
      elim (Bool-cases (victim == self)) [
        | inl at_self ↦
            let f : rest.1 ≡ none = unfold scan in rw at_self at e in
            elim (ℕ_discrete k offset) [
              | yes same ↦ absurd (
                  ne (ap (λ (j : ℕ). (start + j) % length p.workers) same ∙ (==_iff _ _).0 at_self))
              | no other ↦ go f (omega arith)
            ]
        | inr peer ↦
            let f : (steal_or victim p rest r).1 ≡ none = unfold scan in rw peer at e in
            let (later, t) = steal_or-none victim p rest r m f in
            elim (ℕ_discrete k offset) [ yes same ↦ rw same t | no other ↦ go later (omega arith) ]
      ]

  own_or_peers-none :
      (self : ℕ) (p : Pool A) {joined : List A → A → List A} (r : Deque A × Option A)
      → Removed (worker_at p self).queue joined r
      → (own_or_peers self p r).1 ≡ none
      → ((search_peers self p).1 ≡ none) × (tasks (worker_at p self).queue ≡ [])
  own_or_peers-none self p (q, none) (empty t _) e = (e, t)
  own_or_peers-none self p (q, none) (took_task v same _ _) e = cc
  own_or_peers-none self p (q, some v) m e = cc

  search_peers-none :
      (self : ℕ) (p : Pool A)
      → self < length p.workers
      → All IsSound p.workers
      → (search_peers self p).1 ≡ none
      → (j : ℕ) → j < length p.workers
      → j ≢ self
      → tasks (worker_at p j).queue ≡ []
  unfolding search_peers
  search_peers-none self p h a e j hj ne =
      let count = length p.workers in
      let n : 0 < count = omega arith in
      let rng = next_rng (worker_at p self).rng in
      let k = record (worker_at p self) { rng = rng } in
      let p' = put_worker p self k in
      let same : length p'.workers ≡ count = length-set p.workers self k in
      let a' : All IsSound p'.workers =
        All-set IsSound p.workers self k a (All-get_or IsSound p.workers self nobody a h) in
      elim (Bool-cases (leb count 1)) [
        | inl few ↦ absurd (ne (omega (arith, leb→le _ _ few)))
        | inr many ↦
            let f : (scan count 0 (rng % count) self p').1 ≡ none = rw many at e in
            let (o, lt, at_j) = cyclic count (rng % count) j (mod-lt _ n) hj in
            let seen =
              scan-none count 0 (rng % count) self p' (omega arith) a' f o (omega arith)
                (omega arith) in
            let at_j' = ap (λ (n : ℕ). (rng % count + o) % n) same ∙ at_j in
            let clear = subst (λ m. m ≢ self → tasks (worker_at p' m).queue ≡ []) at_j' seen ne in
            ap (λ (w : Worker A). tasks w.queue)
              (sym (get_or-set_ne p.workers self j k nobody (λ x. ne (sym x))))
            ∙ clear
      ]

  -- With every deque well-formed, `pool_next_task` comes back with nothing only if no deque of the
  -- pool holds a task: an idle verdict never overlooks queued work.
  pub pool_next_task-none :
      (self : ℕ) (p : Pool A)
      → self < length p.workers
      → All IsSound p.workers
      → (pool_next_task self p).1 ≡ none
      → (j : ℕ) → j < length p.workers
      → tasks (worker_at p j).queue ≡ []
  pool_next_task-none self p h a e j hj =
      let m = deque_pop_bottom-Removed junk _ (All-get_or IsSound p.workers self nobody a h) in
      let (f, own) = own_or_peers-none self p _ m (unfold pool_next_task in e) in
      elim (ℕ_discrete j self) [
        | yes same ↦ rw same own
        | no ne ↦ search_peers-none self p h a f j hj ne
      ]
