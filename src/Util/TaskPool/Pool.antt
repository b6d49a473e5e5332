-- ===== src/Util/TaskPool/Pool.antt =====
-- The pool of src/util/task_pool.c. Threads interleave between the lock regions and the atomic
-- operations, so each of those is one function here, and `Step` puts them in any order. The fields
-- `entering`, `refused`, `submitted`, `rejected` and `ran` are not in the struct: they say where the
-- submitting threads stand, and what the pool was given and has done.
pub mod Books
pub mod Ledger
pub mod Drained
pub mod Scan
pub mod Drains
use Prim.Native.Nat.{bit_xor}
use molto.Base.{
  ℕ, zero, suc, ◌+◌, ◌-◌, ◌*◌, ◌/◌, ◌%◌, ◌^◌, ◌<◌, ◌≢◌, ◌≡◌, Bool, true, false, Option, none, some,
  List, [], ◌∷◌, length, get_or, set, erase_at, leb, ◌==◌, if◌then◌else◌,
}
use molto.Util.TaskPool.{Deque, deque_init, deque_push_bottom, deque_pop_bottom, deque_steal_top}

-- A `size_t` counter and a `uint64_t` wrap here.
abbrev pub word : ℕ
word = 2 ^ 64

-- Where a worker thread stands in the loop of `worker_main`: looking for work, calling the task, or
-- about to call `pool_mark_done`.
pub data Doing {ℓ} (A : Type ℓ) : Type ℓ where
  idle : Doing A
  running : A → Doing A
  finishing : Doing A

pub record Worker {ℓ} (A : Type ℓ) : Type ℓ where
  pub queue : Deque A
  pub rng : ℕ
  pub doing : Doing A

pub record Pool {ℓ} (A : Type ℓ) : Type ℓ where
  pub workers : List (Worker A)
  pub shutdown : Bool
  pub pending : ℕ
  pub round_robin_next : ℕ
  pub entering : List (ℕ × A)
  pub refused : ℕ
  pub submitted : List A
  pub rejected : List A
  pub ran : List A

module _ {ℓ} {A : Type ℓ} where
  abbrev pub nobody : Worker A
  nobody = record { queue = deque_init; rng = 0; doing = idle }

  abbrev pub worker_at : Pool A → ℕ → Worker A
  worker_at p i = get_or p.workers i nobody

  abbrev pub put_worker : Pool A → ℕ → Worker A → Pool A
  put_worker p i w = record p { workers = set p.workers i w }

  -- `worker_init` of `task_pool_create` for worker `i`: 0x9e37…15 is XORSHIFT_SEED_BASIS.
  unfoldable pub new_worker : ℕ → Worker A
  unfolding deque_init
  new_worker i = record {
    queue = deque_init;
    rng = bit_xor 0x9e3779b97f4a7c15 (i + 1);
    doing = idle;
  }

  unfoldable pub new_workers : ℕ → ℕ → List (Worker A)
  unfolding new_worker
  new_workers zero i = []
  new_workers (suc n) i = new_worker i ∷ new_workers n (i + 1)

  -- `task_pool_create` where every allocation and thread start succeeds; `cpus` is the answer of
  -- `thread_cpu_count`.
  unfoldable pub task_pool_create : ℕ → ℕ → Pool A
  unfolding new_workers
  task_pool_create cpus workers = record {
    workers = new_workers (if workers == 0 then cpus else workers) 0;
    shutdown = false;
    pending = 0;
    round_robin_next = 0;
    entering = [];
    refused = 0;
    submitted = [];
    rejected = [];
    ran = [];
  }

  -- `task_pool_submit` up to the push: the worker is chosen and the task is counted.
  unfoldable pub submit_count : A → Pool A → Pool A
  submit_count v p = record p {
    round_robin_next = (p.round_robin_next + 1) % word;
    pending = (p.pending + 1) % word;
    entering = (p.round_robin_next % length p.workers, v) ∷ p.entering;
    submitted = v ∷ p.submitted;
  }

  -- `atomic_fetch_sub(&pool->pending, 1)`
  abbrev pub less_pending : Pool A → Pool A
  less_pending p = record p { pending = (p.pending + (word - 1)) % word }

  -- The return of a failed push.
  unfoldable pub submit_undo : Pool A → Pool A
  submit_undo p = less_pending (record p { refused = p.refused - 1 })

  -- The task is called, and returns.
  unfoldable pub run_task : ℕ → A → Pool A → Pool A
  run_task i v p =
      put_worker (record p { ran = v ∷ p.ran }) i (record (worker_at p i) { doing = finishing })

  unfoldable pub pool_mark_done : ℕ → Pool A → Pool A
  pool_mark_done i p = put_worker (less_pending p) i (record (worker_at p i) { doing = idle })

module _ {ℓ} {A : Type ℓ} (junk : A) where
  abbrev pub pushed : Pool A → ℕ → A → Worker A → Deque A × Bool → Pool A
  pushed p i v w (q, true) = put_worker p i (record w { queue = q })
  pushed p i v w (q, false) =
      put_worker (record p { refused = p.refused + 1; rejected = v ∷ p.rejected }) i
        (record w { queue = q })

  abbrev pub submit_push_to : Bool → ℕ × A → Pool A → Pool A
  submit_push_to alloc (i, v) p =
      pushed p i v (worker_at p i) (deque_push_bottom junk alloc (worker_at p i).queue v)

  -- The push of the submission at place `k` of those under way.
  unfoldable pub submit_push : Bool → ℕ → Pool A → Pool A
  submit_push alloc k p =
      submit_push_to alloc (get_or p.entering k (0, junk))
        (record p { entering = erase_at p.entering k })

  -- A removal from the deque of worker `j`, for worker `i`; the same worker for its own deque.
  abbrev pub took : ℕ → ℕ → Pool A → Deque A × Option A → Pool A
  took i j p (q, none) = p
  took i j p (q, some v) =
      let p' = put_worker p j (record (worker_at p j) { queue = q }) in
      put_worker p' i (record (worker_at p' i) { doing = running v })

  unfoldable pub pop_own : ℕ → Pool A → Pool A
  pop_own i p = took i i p (deque_pop_bottom junk (worker_at p i).queue)

  unfoldable pub steal_from : ℕ → ℕ → Pool A → Pool A
  steal_from i j p = took i j p (deque_steal_top junk (worker_at p j).queue)

  -- One step of some thread.
  pub data Step (p : Pool A) : Pool A → Type ℓ where
    counts : (v : A) → Step p (submit_count v p)
    pushes : (alloc : Bool) (k : ℕ) → k < length p.entering → Step p (submit_push alloc k p)
    undoes : 0 < p.refused → Step p (submit_undo p)
    pops : (i : ℕ) → i < length p.workers → (worker_at p i).doing ≡ idle → Step p (pop_own i p)
    steals :
        (i j : ℕ)
        → i < length p.workers
        → j < length p.workers
        → i ≢ j
        → (worker_at p i).doing ≡ idle
        → Step p (steal_from i j p)
    runs :
        (i : ℕ) (v : A)
        → i < length p.workers
        → (worker_at p i).doing ≡ running v
        → Step p (run_task i v p)
    finishes :
        (i : ℕ)
        → i < length p.workers
        → (worker_at p i).doing ≡ finishing
        → Step p (pool_mark_done i p)
    stops : Step p (record p { shutdown = true })

  pub data Reach (p : Pool A) : Pool A → Type ℓ where
    here : Reach p p
    next : {q r : Pool A} → Reach p q → Step q r → Reach p r
