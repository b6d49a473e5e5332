-- ===== src/Util/TaskPool/Pool/Drained.antt =====
-- A fresh pool, and what `task_pool_wait` may conclude from `pending == 0`.
use molto.Base.{
  ℕ, zero, suc, ◌+◌, ◌%◌, ◌<◌, ◌≡◌, refl, ap, List, [], ◌∷◌, length, All, arith, ◌==◌,
  if◌then◌else◌,
}
use molto.Base.Sums.{sum_by}
use molto.Util.TaskPool.{tasks}
use molto.Util.TaskPool.Pool.{
  word, Doing, idle, running, finishing, Worker, Pool, new_workers, task_pool_create, Reach,
}
use molto.Util.TaskPool.Pool.Books.{load, doing_load, entering_weight, in_flight, IsSound, PoolInv}
use molto.Util.TaskPool.Pool.Ledger.{Reach-PoolInv}

module _ {ℓ} (A : Type ℓ) where
  new_workers-IsSound : (n i : ℕ) → All (IsSound {A = A}) (new_workers n i)
  unfolding new_workers
  new_workers-IsSound zero i = tt
  new_workers-IsSound (suc n) i = (omega arith, new_workers-IsSound n (i + 1))

  length-new_workers : (n i : ℕ) → length (new_workers {A = A} n i) ≡ n
  unfolding new_workers
  length-new_workers zero i = refl
  length-new_workers (suc n) i = ap suc (length-new_workers n (i + 1))

module _ {ℓ} {A : Type ℓ} where
  load-new_workers : (w : A → ℕ) (f n i : ℕ) → sum_by (load w f) (new_workers n i) ≡ 0
  unfolding new_workers tasks
  load-new_workers w f zero i = refl
  load-new_workers w f (suc n) i = omega (arith, load-new_workers w f n (i + 1))

  pub create-PoolInv :
      (w : A → ℕ) (cpus workers : ℕ)
      → 0 < (if workers == 0 then cpus else workers)
      → PoolInv w (task_pool_create cpus workers)
  unfolding task_pool_create
  create-PoolInv w cpus workers h =
      let n = if workers == 0 then cpus else workers in
      record {
        some_worker = omega (arith, length-new_workers A n 0);
        queues = new_workers-IsSound A n 0;
        aimed = tt;
        ledger = omega (arith, load-new_workers w 0 n 0);
        counted = omega (arith, load-new_workers (λ _. 1) 1 n 0);
      }

  -- Nothing is left with a worker.
  pub record IsIdle (k : Worker A) : Type ℓ where
    pub no_tasks : tasks k.queue ≡ []
    pub at_rest : k.doing ≡ idle

  no_weight : (xs : List A) → sum_by (λ _. 1) xs ≡ 0 → xs ≡ []
  no_weight [] h = refl
  no_weight (x ∷ xs) h = absurd (omega arith)

  no_entering : (xs : List (ℕ × A)) → sum_by (entering_weight (λ _. 1) 1) xs ≡ 0 → xs ≡ []
  no_entering [] h = refl
  no_entering ((i, x) ∷ xs) h = absurd (omega arith)

  no_doing : (k : Worker A) → load (λ _. 1) 1 k ≡ 0 → IsIdle k
  no_doing k h = record {
    no_tasks = no_weight (tasks k.queue) (omega arith);
    at_rest = rest k.doing (sum_by (λ _. 1) (tasks k.queue)) h;
  }
    where
      rest : (d : Doing A) (n : ℕ) → n + doing_load (λ _. 1) 1 d ≡ 0 → d ≡ idle
      rest idle n e = refl
      rest (running v) n e = absurd (omega arith)
      rest finishing n e = absurd (omega arith)

  All-IsIdle : (ws : List (Worker A)) → sum_by (load (λ _. 1) 1) ws ≡ 0 → All IsIdle ws
  All-IsIdle [] h = tt
  All-IsIdle (k ∷ ws) h = (no_doing k (omega arith), All-IsIdle ws (omega arith))

  idle_load : (w : A → ℕ) (ws : List (Worker A)) → All IsIdle ws → sum_by (load w 0) ws ≡ 0
  idle_load w [] h = refl
  idle_load w (k ∷ ws) h = rw (h.0.no_tasks, h.0.at_rest) (omega (arith, idle_load w ws h.1))

module _ {ℓ} {A : Type ℓ} (junk : A) where
  -- In every state that a pool reaches, whatever the interleaving of submitters, owners and thieves,
  -- each submitted task is exactly one of: rejected, still in flight (on its way to a deque, in one,
  -- or with a worker), or run. The equation holds for every weighting of the tasks, so it is one of
  -- multisets. `pending` is the number of unfinished submissions, modulo the size of the counter.
  pub Reach-ledger :
      (w : A → ℕ) (cpus workers : ℕ) {q : Pool A}
      → 0 < (if workers == 0 then cpus else workers)
      → Reach junk (task_pool_create cpus workers) q
      → (sum_by w q.submitted ≡ sum_by w q.rejected + in_flight w 0 q + sum_by w q.ran)
        × (q.pending ≡ (in_flight (λ _. 1) 1 q + q.refused) % word)
  Reach-ledger w cpus workers h r =
      let b = Reach-PoolInv junk w (create-PoolInv w cpus workers h) r in
      (omega (arith, b.ledger), omega (arith, b.counted))

  -- When `task_pool_wait` finds `pending == 0`, with fewer than 2^64 tasks unfinished, every deque is
  -- empty, every worker is idle, and the tasks that were submitted and not rejected are those that
  -- ran, each as often.
  pub pending-zero :
      (w : A → ℕ) (cpus workers : ℕ) {q : Pool A}
      → 0 < (if workers == 0 then cpus else workers)
      → Reach junk (task_pool_create cpus workers) q
      → in_flight (λ _. 1) 1 q + q.refused < word
      → q.pending ≡ 0
      → All IsIdle q.workers × (sum_by w q.submitted ≡ sum_by w q.rejected + sum_by w q.ran)
  pending-zero w cpus workers {q} h r small z =
      let b = Reach-PoolInv junk w (create-PoolInv w cpus workers h) r in
      let none_left : in_flight (λ _. 1) 1 q + q.refused ≡ 0 = omega (arith, b.counted) in
      let at_rest = All-IsIdle q.workers (omega arith) in
      let no_entry = no_entering q.entering (omega arith) in
      let no_weights : sum_by (entering_weight w 0) q.entering ≡ 0 = rw no_entry in
      (at_rest, omega (arith, b.ledger, no_weights, idle_load w q.workers at_rest))
