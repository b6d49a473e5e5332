-- ===== src/Util/TaskPool/Pool/Books.antt =====
-- The books of src/util/task_pool.c's pool, and the steps that need no deque.
use native.Mathlib.Nat.{mod-lt}
use molto.Base.{
  ℕ, zero, suc, ◌+◌, ◌%◌, ◌<◌, ◌≡◌, ap, ◌∙◌, List, [], ◌∷◌, ◌++◌, length, get_or, set, erase_at,
  All, All-set, All-get_or, length-set, arith,
}
use molto.Base.Sums.{sum_by, sum_by-append, sum_by-set}
use molto.Util.TaskPool.{DequeInv, tasks}
use molto.Util.TaskPool.Pool.{
  word, Doing, idle, running, finishing, Worker, Pool, nobody, worker_at, put_worker, submit_count,
  submit_undo, run_task, pool_mark_done,
}

module _ {ℓ} {A : Type ℓ} (w : A → ℕ) (f : ℕ) where
  abbrev pub doing_load : Doing A → ℕ
  doing_load idle = 0
  doing_load (running v) = w v
  doing_load finishing = f

  -- The weight of what a worker has in its deque and in its hands; `f` once the task has returned.
  abbrev pub load : Worker A → ℕ
  load k = sum_by w (tasks k.queue) + doing_load k.doing

  abbrev pub entering_weight : ℕ × A → ℕ
  entering_weight (_, v) = w v

  abbrev pub in_flight : Pool A → ℕ
  in_flight p = sum_by entering_weight p.entering + sum_by load p.workers

  -- Giving worker `i` the state `k` changes the sum of the loads by the difference.
  load_put :
      (ws : List (Worker A)) (i : ℕ) (k : Worker A)
      → i < length ws
      → sum_by load (set ws i k) + load (get_or ws i nobody) ≡ sum_by load ws + load k
  load_put ws i k h = sum_by-set load ws i k nobody h

abbrev pub IsSound {ℓ} : {A : Type ℓ} → Worker A → Type 0
IsSound k = DequeInv k.queue

abbrev pub IsAimed {ℓ} : {A : Type ℓ} → ℕ → ℕ × A → Type 0
IsAimed n (i, _) = i < n

-- Both books, in which `w` weighs the tasks. Tasks of weight `x`, `y` in number, are in the hands of
-- the step that is being taken.
pub record Books {ℓ} {A : Type ℓ} (w : A → ℕ) (x y : ℕ) (p : Pool A) : Type 0 where
  pub some_worker : 0 < length p.workers
  pub queues : All IsSound p.workers
  pub aimed : All (IsAimed (length p.workers)) p.entering
  pub ledger : sum_by w p.submitted ≡ sum_by w p.rejected + in_flight w 0 p + sum_by w p.ran + x
  pub counted : p.pending ≡ (in_flight (λ _. 1) 1 p + p.refused + y) % word

abbrev pub PoolInv {ℓ} : {A : Type ℓ} → (A → ℕ) → Pool A → Type 0
PoolInv w p = Books w 0 0 p

module _ {ℓ} {A : Type ℓ} where
  pub All-erase_at {κ} :
      (P : ℕ × A → Type κ) (xs : List (ℕ × A)) (k : ℕ) → All P xs → All P (erase_at xs k)
  All-erase_at P [] k h = h
  All-erase_at P (e ∷ xs) zero h = h.1
  All-erase_at P (e ∷ xs) (suc k) h = (h.0, All-erase_at P xs k h.1)

  pub sum_by-one : (w : A → ℕ) (xs : List A) (v : A) → sum_by w (xs ++ v ∷ []) ≡ sum_by w xs + w v
  sum_by-one w xs v = omega (arith, sum_by-append w xs (v ∷ []))

module _ {ℓ} {A : Type ℓ} (w : A → ℕ) where
  pub submit_count-PoolInv : (v : A) (p : Pool A) → PoolInv w p → PoolInv w (submit_count v p)
  unfolding submit_count
  submit_count-PoolInv v p i = record {
    some_worker = i.some_worker;
    queues = i.queues;
    aimed = (mod-lt _ i.some_worker, i.aimed);
    ledger = omega (arith, i.ledger);
    counted = omega (arith, i.counted);
  }

  pub submit_undo-PoolInv : (p : Pool A) → 0 < p.refused → PoolInv w p → PoolInv w (submit_undo p)
  unfolding submit_undo
  submit_undo-PoolInv p h i = record {
    some_worker = i.some_worker;
    queues = i.queues;
    aimed = i.aimed;
    ledger = i.ledger;
    counted = omega (arith, i.counted);
  }

  pub put-Books :
      (p : Pool A) (i : ℕ) (k : Worker A) (x y x' y' : ℕ)
      → i < length p.workers
      → DequeInv k.queue
      → load w 0 k + x' ≡ load w 0 (worker_at p i) + x
      → load (λ _. 1) 1 k + y' ≡ load (λ _. 1) 1 (worker_at p i) + y
      → Books w x y p
      → Books w x' y' (put_worker p i k)
  put-Books p i k x y x' y' h d l c b = record {
    some_worker = let s = b.some_worker in omega (arith, length-set p.workers i k);
    queues = All-set IsSound p.workers i k b.queues d;
    aimed = rw length-set b.aimed;
    ledger = omega (arith, l, b.ledger, load_put w 0 p.workers i k h);
    counted =
        let back : in_flight (λ _. 1) 1 p + p.refused + y
            ≡ in_flight (λ _. 1) 1 (put_worker p i k) + p.refused + y' =
          omega (arith, c, load_put (λ _. 1) 1 p.workers i k h) in
        b.counted ∙ ap (λ (m : ℕ). m % word) back;
  }

  pub sound_at :
      (p : Pool A) (i : ℕ) (x y : ℕ)
      → i < length p.workers
      → Books w x y p
      → DequeInv (worker_at p i).queue
  sound_at p i x y h b = All-get_or IsSound p.workers i nobody b.queues h

  pub run_task-PoolInv :
      (i : ℕ) (v : A) (p : Pool A)
      → i < length p.workers
      → (worker_at p i).doing ≡ running v
      → PoolInv w p
      → PoolInv w (run_task i v p)
  unfolding run_task
  run_task-PoolInv i v p h r inv =
      let b : Books w (w v) 0 (put_worker p i (record (worker_at p i) { doing = finishing })) =
        put-Books p i _ 0 0 (w v) 0 h (sound_at p i 0 0 h inv) (rw (r, doing_load) (omega arith))
          (rw (r, doing_load)) inv in
      record {
        some_worker = b.some_worker;
        queues = b.queues;
        aimed = b.aimed;
        ledger = omega (arith, b.ledger);
        counted = b.counted;
      }

  pub pool_mark_done-PoolInv :
      (i : ℕ) (p : Pool A)
      → i < length p.workers
      → (worker_at p i).doing ≡ finishing
      → PoolInv w p
      → PoolInv w (pool_mark_done i p)
  unfolding pool_mark_done
  pool_mark_done-PoolInv i p h r inv =
      let b : Books w 0 1 (put_worker p i (record (worker_at p i) { doing = idle })) =
        put-Books p i _ 0 0 0 1 h (sound_at p i 0 0 h inv) (rw (r, doing_load))
          (rw (r, doing_load) (omega arith)) inv in
      record {
        some_worker = b.some_worker;
        queues = b.queues;
        aimed = b.aimed;
        ledger = b.ledger;
        counted = omega (arith, b.counted);
      }
