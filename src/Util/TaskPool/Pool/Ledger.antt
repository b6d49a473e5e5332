-- ===== src/Util/TaskPool/Pool/Ledger.antt =====
-- The books of the pool: no task is lost or run twice, and `pending` counts the unfinished ones.
use native.Mathlib.Decide.{ℕ_discrete}
use molto.Base.{
  ℕ, ◌+◌, ◌%◌, ◌<◌, ◌≡◌, sym, ap, ◌∙◌, subst, Bool, true, false, Option, none, some, List, ◌∷◌,
  length, get_or, erase_at, All-get_or, length-set, get_or-set_ne, get_or-set_self, arith,
}
use molto.Base.Sums.{sum_by, sum_by-erase_at}
use molto.Util.TaskPool.{Deque, tasks}
use molto.Util.TaskPool.Refines.{
  Pushed, deque_push_bottom-Pushed, Removed, empty, took as took_task, deque_pop_bottom-Removed,
  deque_steal_top-Removed,
}
use molto.Util.TaskPool.Pool.{
  word, idle, Worker, Pool, nobody, worker_at, put_worker, pushed, submit_push_to, submit_push,
  took, pop_own, steal_from, Step, counts, pushes, undoes, pops, steals, runs, finishes, stops,
  Reach, here, next,
}
use molto.Util.TaskPool.Pool.Books.{
  doing_load, entering_weight, in_flight, IsAimed, Books, PoolInv, All-erase_at, sum_by-one,
  submit_count-PoolInv, submit_undo-PoolInv, put-Books, sound_at, run_task-PoolInv,
  pool_mark_done-PoolInv,
}

module _ {ℓ} {A : Type ℓ} (junk : A) (w : A → ℕ) where
  -- What both ways to remove a task have in common: the weights of the deque and the task add up.
  abbrev Adds : (List A → A → List A) → Type ℓ
  Adds joined = (u : A → ℕ) (ts : List A) (v : A) → sum_by u (joined ts v) ≡ sum_by u ts + u v

  doing-put :
      (p : Pool A) (i j : ℕ) (q : Deque A)
      → i < length p.workers
      → (worker_at (put_worker p j (record (worker_at p j) { queue = q })) i).doing
        ≡ (worker_at p i).doing
  doing-put p i j q h = elim (ℕ_discrete j i) [
    | yes e ↦
        subst
          (λ j.
            (worker_at (put_worker p j (record (worker_at p j) { queue = q })) i).doing
            ≡ (worker_at p i).doing)
          (sym e) (ap (λ (k : Worker A). k.doing) (get_or-set_self p.workers i _ nobody h))
    | no ne ↦ ap (λ (k : Worker A). k.doing) (get_or-set_ne p.workers j i _ nobody ne)
  ]

  took-PoolInv :
      (p : Pool A) (i j : ℕ) (joined : List A → A → List A) (r : Deque A × Option A)
      → i < length p.workers
      → j < length p.workers
      → (worker_at p i).doing ≡ idle
      → Adds joined
      → Removed (worker_at p j).queue joined r
      → PoolInv w p
      → PoolInv w (took junk i j p r)
  took-PoolInv p i j joined (q, none) hi hj r adds m inv = inv
  took-PoolInv p i j joined (q, some v) hi hj r adds (empty _ e) inv =
      cc (ap (λ (t : Deque A × Option A). t.1) e)
  took-PoolInv p i j joined (q, some v) hi hj r adds (took_task u same split d) inv =
      let p' = put_worker p j (record (worker_at p j) { queue = q }) in
      let e : u ≡ v = cc in
      let b : Books w (w v) 1 p' =
        put-Books w p j _ 0 0 (w v) 1 hj d (rw split (omega (arith, adds w (tasks q) u, ap w e)))
          (rw split (omega (arith, adds (λ _. 1) (tasks q) u))) inv in
      let r' : (worker_at p' i).doing ≡ idle = doing-put p i j q hi ∙ r in
      let hi' : i < length p'.workers =
        omega (arith, length-set p.workers j (record (worker_at p j) { queue = q })) in
      put-Books w p' i _ (w v) 1 0 0 hi' (sound_at w p' i (w v) 1 hi' b)
        (rw (r', doing_load) (omega arith)) (rw (r', doing_load) (omega arith)) b

  pop_own-PoolInv :
      (p : Pool A) (i : ℕ)
      → i < length p.workers
      → (worker_at p i).doing ≡ idle
      → PoolInv w p
      → PoolInv w (pop_own junk i p)
  unfolding pop_own
  pop_own-PoolInv p i h r inv =
      took-PoolInv p i i _ _ h h r sum_by-one
        (deque_pop_bottom-Removed junk _ (sound_at w p i 0 0 h inv)) inv

  steal_from-PoolInv :
      (p : Pool A) (i j : ℕ)
      → i < length p.workers
      → j < length p.workers
      → (worker_at p i).doing ≡ idle
      → PoolInv w p
      → PoolInv w (steal_from junk i j p)
  unfolding steal_from
  steal_from-PoolInv p i j h k r inv =
      took-PoolInv p i j _ _ h k r (λ u ts v. omega arith)
        (deque_steal_top-Removed junk _ (sound_at w p j 0 0 k inv)) inv

  pushed-PoolInv :
      (p : Pool A) (i : ℕ) (v : A) (alloc : Bool) (r : Deque A × Bool)
      → i < length p.workers
      → Pushed (tasks (worker_at p i).queue) v alloc r
      → Books w (w v) 1 p
      → PoolInv w (pushed junk p i v (worker_at p i) r)
  pushed-PoolInv p i v alloc (q, true) h m b =
      put-Books w p i _ (w v) 1 0 0 h m.inv
        (rw m.holds (omega (arith, sum_by-one w (tasks (worker_at p i).queue) v)))
        (rw m.holds (omega (arith, sum_by-one (λ _. 1) (tasks (worker_at p i).queue) v))) b
  pushed-PoolInv p i v alloc (q, false) h m b =
      let c : Books w 0 0 (record p { refused = p.refused + 1; rejected = v ∷ p.rejected }) =
        record {
          some_worker = b.some_worker;
          queues = b.queues;
          aimed = b.aimed;
          ledger = omega (arith, b.ledger);
          counted = omega (arith, b.counted);
        } in
      put-Books w _ i _ 0 0 0 0 h m.inv (rw m.holds) (rw m.holds) c

  submit_push_to-PoolInv :
      (alloc : Bool) (e : ℕ × A) (p : Pool A)
      → e.0 < length p.workers
      → Books w (w e.1) 1 p
      → PoolInv w (submit_push_to junk alloc e p)
  submit_push_to-PoolInv alloc (i, v) p h b =
      pushed-PoolInv p i v alloc _ h
        (deque_push_bottom-Pushed junk alloc _ v (sound_at w p i (w v) 1 h b)) b

  submit_push-PoolInv :
      (alloc : Bool) (k : ℕ) (p : Pool A)
      → k < length p.entering
      → PoolInv w p
      → PoolInv w (submit_push junk alloc k p)
  unfolding submit_push
  submit_push-PoolInv alloc k p h inv =
      let e = get_or p.entering k (0, junk) in
      submit_push_to-PoolInv alloc e (record p { entering = erase_at p.entering k })
        (All-get_or (IsAimed (length p.workers)) p.entering k _ inv.aimed h)
        (record {
          some_worker = inv.some_worker;
          queues = inv.queues;
          aimed = All-erase_at (IsAimed (length p.workers)) p.entering k inv.aimed;
          ledger =
              omega
                (arith, inv.ledger, sum_by-erase_at (entering_weight w 0) p.entering k (0, junk) h);
          counted =
              let back : in_flight (λ _. 1) 1 p + p.refused + 0
                  ≡ in_flight (λ _. 1) 1 (record p { entering = erase_at p.entering k })
                    + p.refused
                    + 1 =
                omega (
                  arith,
                  sum_by-erase_at (entering_weight (λ (_ : A). 1) 1) p.entering k (0, junk) h,
                ) in
              inv.counted ∙ ap (λ (m : ℕ). m % word) back;
        })

  pub Step-PoolInv : {p q : Pool A} → Step junk p q → PoolInv w p → PoolInv w q
  Step-PoolInv {p} (counts v) inv = submit_count-PoolInv w v p inv
  Step-PoolInv {p} (pushes alloc k h) inv = submit_push-PoolInv alloc k p h inv
  Step-PoolInv {p} (undoes h) inv = submit_undo-PoolInv w p h inv
  Step-PoolInv {p} (pops i h r) inv = pop_own-PoolInv p i h r inv
  Step-PoolInv {p} (steals i j h k ne r) inv = steal_from-PoolInv p i j h k r inv
  Step-PoolInv {p} (runs i v h r) inv = run_task-PoolInv w i v p h r inv
  Step-PoolInv {p} (finishes i h r) inv = pool_mark_done-PoolInv w i p h r inv
  Step-PoolInv stops inv = record {
    some_worker = inv.some_worker;
    queues = inv.queues;
    aimed = inv.aimed;
    ledger = inv.ledger;
    counted = inv.counted;
  }

  pub Reach-PoolInv : {p q : Pool A} → PoolInv w p → Reach junk p q → PoolInv w q
  Reach-PoolInv inv here = inv
  Reach-PoolInv inv (next r s) = Step-PoolInv s (Reach-PoolInv inv r)
