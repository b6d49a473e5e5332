-- ===== src/Util/TaskPool/Pool/Drains.antt =====
-- The pool of src/util/task_pool.c gets its work done: from every state that it reaches, its threads
-- can go on until nothing is pending.
use molto.Base.{
  ℕ, zero, suc, ◌+◌, ◌*◌, ◌≤◌, ◌<◌, ◌≡◌, refl, ap, ◌∙◌, Bool, true, false, List, [], ◌∷◌, ◌++◌, inl,
  inr, length, get_or, set, erase_at, All, All-get_or, length-set, length-append, get_or-set_self,
  le-cases, arith, ◌==◌, if◌then◌else◌, Option, some, none,
}
use molto.Base.Sums.{sum_by, sum_by-set}
use molto.Util.TaskPool.{Deque, DequeInv, tasks}
use molto.Util.TaskPool.Refines.{
  Pushed, deque_push_bottom-Pushed, Removed, empty, took as took_task, deque_pop_bottom-Removed,
}
use molto.Util.TaskPool.Pool.{
  Doing, idle, running, finishing, Worker, Pool, nobody, worker_at, put_worker, submit_undo,
  run_task, pool_mark_done, pushed, submit_push, took, pop_own, task_pool_create, Step, pushes,
  undoes, pops, runs, finishes, Reach, here, next,
}
use molto.Util.TaskPool.Pool.Books.{load, doing_load, entering_weight, IsSound, IsAimed, PoolInv}
use molto.Util.TaskPool.Pool.Ledger.{Step-PoolInv, Reach-PoolInv}
use molto.Util.TaskPool.Pool.Drained.{IsIdle, create-PoolInv, pending-zero}

module _ {ℓ} {A : Type ℓ} where
  abbrev doing_steps : Doing A → ℕ
  doing_steps idle = 0
  doing_steps (running v) = 2
  doing_steps finishing = 1

  -- The steps that a worker has before it.
  abbrev steps : Worker A → ℕ
  steps k = 3 * length (tasks k.queue) + doing_steps k.doing

  -- The steps that are left of a pool's work.
  abbrev work_left : Pool A → ℕ
  work_left p = 4 * length p.entering + sum_by steps p.workers + p.refused

  busy_worker :
      (ws : List (Worker A))
      → 0 < sum_by steps ws
      → (i : ℕ) × (i < length ws) × (0 < steps (get_or ws i nobody))
  busy_worker [] h = absurd (omega arith)
  busy_worker (k ∷ ws) h = elim (le-cases (steps k) 0) [
    | inl none_here ↦ let (i, l, s) = busy_worker ws (omega arith) in (suc i, omega arith, s)
    | inr some_here ↦ (0, omega arith, some_here)
  ]

  -- A worker with fewer steps before it leaves a pool with less work.
  put-fewer :
      (p : Pool A) (i : ℕ) (k : Worker A) (n : ℕ)
      → i < length p.workers
      → steps k + n ≡ steps (worker_at p i)
      → sum_by steps (set p.workers i k) + n ≡ sum_by steps p.workers
  put-fewer p i k n h e = omega (arith, sum_by-set steps p.workers i k nobody h)

module _ {ℓ} {A : Type ℓ} (junk : A) where
  -- A step that leaves less work, nothing else submitted and the pool open.
  abbrev Works : Pool A → Type ℓ
  Works p =
      (q : Pool A) × Step junk p q
      × (work_left q < work_left p)
      × (q.submitted ≡ p.submitted)
      × (q.shutdown ≡ p.shutdown)

  -- A push with memory to hand puts the task in the worker's deque.
  pushed-work_left :
      (p : Pool A) (i : ℕ) (v : A) (r : Deque A × Bool)
      → i < length p.workers
      → Pushed (tasks (worker_at p i).queue) v true r
      → let q = pushed junk p i v (worker_at p i) r in
        (work_left q ≡ work_left p + 3) × (q.submitted ≡ p.submitted) × (q.shutdown ≡ p.shutdown)
  pushed-work_left p i v (d, true) h m =
      let k : Worker A = record (worker_at p i) { queue = d } in
      let size : length (tasks d) ≡ length (tasks (worker_at p i).queue) + 1 =
        ap (length {A = A}) m.holds ∙ length-append (tasks (worker_at p i).queue) (v ∷ []) in
      let moved = sum_by-set steps p.workers i k nobody h in
      (omega (arith, size, moved), refl, refl)
  pushed-work_left p i v (d, false) h m = absurd (cc (m.fails_by_alloc refl))

  length-erase_first :
      (es : List (ℕ × A)) → 0 < length es → suc (length (erase_at es 0)) ≡ length es
  length-erase_first [] h = absurd (omega arith)
  length-erase_first (e ∷ es) h = refl

  -- A submission on its way goes to a deque.
  push-Works : (p : Pool A) → PoolInv (λ _. 1) p → 0 < length p.entering → Works p
  unfolding submit_push
  push-Works p inv h =
      let e = get_or p.entering 0 (0, junk) in
      let rest : Pool A = record p { entering = erase_at p.entering 0 } in
      let aimed : e.0 < length p.workers =
        All-get_or (IsAimed (length p.workers)) p.entering 0 (0, junk) inv.aimed h in
      let sound : DequeInv (worker_at p e.0).queue =
        All-get_or IsSound p.workers e.0 nobody inv.queues aimed in
      let (work, same, open_still) =
        pushed-work_left rest e.0 e.1 _ aimed
          (deque_push_bottom-Pushed junk true (worker_at p e.0).queue e.1 sound) in
      let fewer = length-erase_first p.entering h in
      (submit_push junk true 0 p, pushes true 0 h, omega arith, same, open_still)

  -- A task that is popped leaves its worker one step fewer.
  took-Works :
      (p : Pool A) (i : ℕ) (r : Deque A × Option A)
      → i < length p.workers
      → (worker_at p i).doing ≡ idle
      → 0 < length (tasks (worker_at p i).queue)
      → Removed (worker_at p i).queue (λ ts v. ts ++ v ∷ []) r
      → let q = took junk i i p r in
        (work_left q < work_left p) × (q.submitted ≡ p.submitted) × (q.shutdown ≡ p.shutdown)
  took-Works p i r h e some_task (empty none_there _) =
      absurd (omega (arith, ap (length {A = A}) none_there))
  took-Works p i (d, none) h e some_task (took_task u same split inv) = absurd (cc same)
  took-Works p i (d, some v) h e some_task (took_task u same split inv) =
      let k : Worker A = record (worker_at p i) { queue = d } in
      let p1 = put_worker p i k in
      let here_now : worker_at p1 i ≡ k = get_or-set_self p.workers i k nobody h in
      let k2 : Worker A = record (worker_at p1 i) { doing = running v } in
      let size : length (tasks (worker_at p i).queue) ≡ length (tasks d) + 1 =
        ap (length {A = A}) split ∙ length-append (tasks d) (u ∷ []) in
      let inside : i < length p1.workers = omega (arith, length-set p.workers i k) in
      let first = sum_by-set steps p.workers i k nobody h in
      let second = sum_by-set steps p1.workers i k2 nobody inside in
      let rest : doing_steps (worker_at p i).doing ≡ 0 = ap doing_steps e in
      let queue_now : length (tasks (worker_at p1 i).queue) ≡ length (tasks d) =
        ap (λ (w : Worker A). length (tasks w.queue)) here_now in
      let doing_now : doing_steps (worker_at p1 i).doing ≡ doing_steps (worker_at p i).doing =
        ap (λ (w : Worker A). doing_steps w.doing) here_now in
      (omega arith, refl, refl)

  -- A worker with steps before it takes one.
  worker-Works :
      (p : Pool A) (i : ℕ)
      → PoolInv (λ _. 1) p
      → i < length p.workers
      → 0 < steps (worker_at p i)
      → Works p
  unfolding run_task pool_mark_done pop_own
  worker-Works p i inv h busy = go (worker_at p i).doing refl
    where
      go : (d : Doing A) → (worker_at p i).doing ≡ d → Works p
      go (running v) e =
          let now : doing_steps (worker_at p i).doing ≡ 2 = ap doing_steps e in
          let moved =
            put-fewer p i (record (worker_at p i) { doing = finishing }) 1 h (omega arith) in
          (run_task i v p, runs i v h e, omega arith, refl, refl)
      go finishing e =
          let now : doing_steps (worker_at p i).doing ≡ 1 = ap doing_steps e in
          let moved = put-fewer p i (record (worker_at p i) { doing = idle }) 1 h (omega arith) in
          (pool_mark_done i p, finishes i h e, omega arith, refl, refl)
      go idle e =
          let now : doing_steps (worker_at p i).doing ≡ 0 = ap doing_steps e in
          let (less, same, open_still) = took-Works p i _ h e (omega arith) (
            deque_pop_bottom-Removed junk (worker_at p i).queue
              (All-get_or IsSound p.workers i nobody inv.queues h)) in
          (pop_own junk i p, pops i h e, less, same, open_still)

  -- As long as work is left, some thread takes a step of it.
  some-Works : (p : Pool A) → PoolInv (λ _. 1) p → 0 < work_left p → Works p
  unfolding submit_undo
  some-Works p inv h = elim (le-cases 1 (length p.entering)) [
    | inl arriving ↦ push-Works p inv arriving
    | inr none_arriving ↦ elim (le-cases 1 p.refused) [
      | inl refusals ↦ (submit_undo p, undoes refusals, omega arith, refl, refl)
      | inr none_refused ↦
          let (i, l, busy) = busy_worker p.workers (omega arith) in worker-Works p i inv l busy
    ]
  ]

  Reach-first : {p q r : Pool A} → Step junk p q → Reach junk q r → Reach junk p r
  Reach-first s here = next here s
  Reach-first s (next r t) = next (Reach-first s r) t

  -- What the threads can come to on their own: no work, and nothing else submitted.
  abbrev CanFinish : Pool A → Type ℓ
  CanFinish p =
      (q : Pool A) × Reach junk p q
      × (work_left q ≡ 0)
      × PoolInv (λ _. 1) q
      × (q.submitted ≡ p.submitted)
      × (q.shutdown ≡ p.shutdown)

  work-CanFinish : (n : ℕ) (p : Pool A) → work_left p ≤ n → PoolInv (λ _. 1) p → CanFinish p
  work-CanFinish zero p l inv = (p, here, omega arith, inv, refl, refl)
  work-CanFinish (suc n) p l inv = elim (le-cases 1 (work_left p)) [
    | inr over ↦ (p, here, omega arith, inv, refl, refl)
    | inl more ↦
        let (q, step, less, same, open_still) = some-Works p inv more in
        let (r, path, rest, final, given, open_yet) =
          work-CanFinish n q (omega arith) (Step-PoolInv junk (λ _. 1) step inv) in
        (r, Reach-first step path, rest, final, given ∙ same, open_yet ∙ open_still)
  ]

  Reach-trans : {p q r : Pool A} → Reach junk p q → Reach junk q r → Reach junk p r
  Reach-trans h here = h
  Reach-trans h (next r s) = next (Reach-trans h r) s

  length_zero : (xs : List A) → 3 * length xs ≡ 0 → sum_by (λ _. 1) xs ≡ 0
  length_zero [] h = refl
  length_zero (x ∷ xs) h = absurd (omega arith)

  no_steps : (d : Doing A) → doing_steps d ≡ 0 → d ≡ idle
  no_steps idle h = refl
  no_steps (running v) h = absurd (omega arith)
  no_steps finishing h = absurd (omega arith)

  load_zero : (ws : List (Worker A)) → sum_by steps ws ≡ 0 → sum_by (load (λ _. 1) 1) ws ≡ 0
  load_zero [] h = refl
  load_zero (k ∷ ws) h =
      let none_queued = length_zero (tasks k.queue) (omega arith) in
      let at_rest : doing_load (λ _. 1) 1 k.doing ≡ 0 =
        ap (doing_load (λ _. 1) 1) (no_steps k.doing (omega arith)) in
      omega (arith, load_zero ws (omega arith))

  no_entering_weight :
      (es : List (ℕ × A)) → length es ≡ 0 → sum_by (entering_weight (λ _. 1) 1) es ≡ 0
  no_entering_weight [] h = refl
  no_entering_weight (e ∷ es) h = absurd (omega arith)

  -- From every state that an open pool reaches, its threads can go on, with nothing else submitted,
  -- to one in which `pending` is 0, every worker is idle with an empty deque, and the tasks that were
  -- submitted and not rejected have run, each as often.
  pub Reach-drains :
      (w : A → ℕ) (cpus workers : ℕ) {q : Pool A}
      → 0 < (if workers == 0 then cpus else workers)
      → Reach junk (task_pool_create cpus workers) q
      → q.shutdown ≡ false
      → (r : Pool A) × Reach junk q r
        × (r.shutdown ≡ false)
        × (r.submitted ≡ q.submitted)
        × (r.pending ≡ 0)
        × All IsIdle r.workers
        × (sum_by w r.submitted ≡ sum_by w r.rejected + sum_by w r.ran)
  Reach-drains w cpus workers {q} h path open_now =
      let start = Reach-PoolInv junk (λ _. 1) (create-PoolInv (λ _. 1) cpus workers h) path in
      let (r, more, finished, inv, same, still) =
        work-CanFinish (work_left q) q (omega arith) start in
      let none_entering = no_entering_weight r.entering (omega arith) in
      let none_loaded = load_zero r.workers (omega arith) in
      let none_pending : r.pending ≡ 0 = omega (arith, inv.counted) in
      let (idle_all, ledger) =
        pending-zero junk w cpus workers h (Reach-trans path more) (omega arith) none_pending in
      (r, more, still ∙ open_now, same, none_pending, idle_all, ledger)
