-- ===== src/Util/TaskPool/Tests.antt =====
-- Runs of the deque and of the pool, and the theorems at concrete inputs.
use molto.Base.{ℕ, ◌≡◌, refl, true, false, none, [], ◌∷◌, ◌++◌, length, arith, ◌+◌, ◌<◌, ◌%◌, All}
use molto.Base.Sums.{sum_by}
use molto.Util.TaskPool.{
  Deque, DequeInv, deque_init, tasks, deque_push_bottom, deque_pop_bottom, deque_steal_top,
}
use molto.Util.TaskPool.Refines.{Pushed, Removed, deque_push_bottom-Pushed, deque_removals-Removed}
use molto.Util.TaskPool.Pool.{
  Pool, task_pool_create, submit_count, submit_push, steal_from, run_task, pool_mark_done,
  worker_at, Reach, here, next, counts, pushes, steals, runs, finishes, word,
}
use molto.Util.TaskPool.Pool.Books.{in_flight, IsSound}
use molto.Util.TaskPool.Pool.Drained.{Reach-ledger, pending-zero, IsIdle}
use molto.Util.TaskPool.Pool.Drains.{Reach-drains}
use molto.Util.TaskPool.Pool.Scan.{pool_next_task, pool_next_task-none}

-- A full deque of capacity 2 whose top has been stolen.
abbrev slid : Deque ℕ
slid = record { items = 7 ∷ 8 ∷ []; capacity = 2; top = 1; bottom = 2 }

slid-DequeInv : DequeInv slid
slid-DequeInv = omega arith

push_slides :
    (deque_push_bottom 0 false slid 9).0
    ≡ record { items = 8 ∷ 9 ∷ []; capacity = 2; top = 0; bottom = 2 }
unfolding deque_push_bottom
push_slides = refl

push_fails : (deque_push_bottom {A = ℕ} 0 false deque_init 9).1 ≡ false
unfolding deque_push_bottom deque_init
push_fails = refl

deque_push_bottom-Pushed_example : Pushed (tasks slid) 9 true (deque_push_bottom 0 true slid 9)
deque_push_bottom-Pushed_example = deque_push_bottom-Pushed 0 true slid 9 slid-DequeInv

deque_removals-Removed_example :
    Removed slid (λ ts v. ts ++ v ∷ []) (deque_pop_bottom 0 slid)
    × Removed slid (λ ts v. v ∷ ts) (deque_steal_top 0 slid)
deque_removals-Removed_example = deque_removals-Removed 0 slid slid-DequeInv

abbrev start : Pool ℕ
start = task_pool_create 0 2

abbrev given : Pool ℕ
given = submit_push 0 true 0 (submit_count 5 start)

abbrev taken : Pool ℕ
taken = steal_from 0 1 0 given

abbrev done : Pool ℕ
done = pool_mark_done 1 (run_task 1 5 taken)

runs_task : done.ran ≡ 5 ∷ []
unfolding task_pool_create submit_count submit_push deque_push_bottom steal_from deque_steal_top
    run_task pool_mark_done
runs_task = refl

Reach-done : Reach 0 start done
unfolding task_pool_create submit_count submit_push deque_push_bottom steal_from deque_steal_top
    run_task pool_mark_done
Reach-done =
    next
      (next
        (next (next (next here (counts 5)) (pushes true 0 (omega arith)))
          (steals 1 0 (omega arith) (omega arith) (omega arith) refl))
        (runs 1 5 (omega arith) refl))
      (finishes 1 (omega arith) refl)

done_small : in_flight (λ _. 1) 1 done + done.refused < word
unfolding task_pool_create submit_count submit_push deque_push_bottom steal_from deque_steal_top
    run_task pool_mark_done tasks
done_small = omega arith

done_pending : done.pending ≡ 0
unfolding task_pool_create submit_count submit_push deque_push_bottom steal_from deque_steal_top
    run_task pool_mark_done
done_pending = refl

Reach-ledger_example :
    (sum_by (λ n. n) done.submitted
      ≡ sum_by (λ n. n) done.rejected + in_flight (λ n. n) 0 done + sum_by (λ n. n) done.ran)
    × (done.pending ≡ (in_flight (λ _. 1) 1 done + done.refused) % word)
Reach-ledger_example = Reach-ledger 0 (λ n. n) 0 2 (omega arith) Reach-done

pending-zero_example :
    All IsIdle done.workers
    × (sum_by (λ n. n) done.submitted ≡ sum_by (λ n. n) done.rejected + sum_by (λ n. n) done.ran)
pending-zero_example = pending-zero 0 (λ n. n) 0 2 (omega arith) Reach-done done_small done_pending

start-IsSound : All IsSound start.workers
unfolding task_pool_create
start-IsSound = omega arith

start_finds_none : (pool_next_task 0 0 start).1 ≡ none
unfolding pool_next_task task_pool_create deque_pop_bottom deque_steal_top
start_finds_none = refl

length-start : 1 < length start.workers
unfolding task_pool_create
length-start = omega arith

pool_next_task-none_example : tasks (worker_at start 1).queue ≡ []
pool_next_task-none_example =
    pool_next_task-none 0 0 start (omega (arith, length-start)) start-IsSound start_finds_none 1
      length-start

Reach-given : Reach 0 start given
unfolding task_pool_create submit_count submit_push deque_push_bottom
Reach-given = next (next here (counts 5)) (pushes true 0 (omega arith))

given_open : given.shutdown ≡ false
unfolding task_pool_create submit_count submit_push deque_push_bottom
given_open = refl

Reach-drains_example :
    (r : Pool ℕ) × Reach 0 given r
    × (r.shutdown ≡ false)
    × (r.submitted ≡ given.submitted)
    × (r.pending ≡ 0)
    × All IsIdle r.workers
    × (sum_by (λ n. n) r.submitted ≡ sum_by (λ n. n) r.rejected + sum_by (λ n. n) r.ran)
Reach-drains_example = Reach-drains 0 (λ n. n) 0 2 (omega arith) Reach-given given_open
