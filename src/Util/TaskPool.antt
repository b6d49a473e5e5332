-- ===== src/Util/TaskPool.antt =====
-- src/util/task_pool.c: the deque of a worker, an array with two indices under its own lock. Each
-- operation holds the lock from its first line to its last, so it is one function here. `alloc`
-- tells whether `realloc` succeeds; `junk` is what fresh memory holds.
pub mod Refines
pub mod Pool
mod Tests
use molto.Base.{
  ℕ, ◌+◌, ◌-◌, ◌*◌, ◌≤◌, ◌≡◌, Bool, true, false, not, ◌&&◌, Option, none, some, List, [], ◌++◌,
  length, get_or, set, take, drop, replicate, ltb, ◌==◌, if◌then◌else◌,
}

pub record Deque {ℓ} (A : Type ℓ) : Type ℓ where
  pub items : List A
  pub capacity : ℕ
  pub top : ℕ
  pub bottom : ℕ

module _ {ℓ} {A : Type ℓ} where
  unfoldable pub deque_init : Deque A
  deque_init = record { items = []; capacity = 0; top = 0; bottom = 0 }

  -- The first half of `deque_push_bottom`: reset the indices, or slide the items down.
  unfoldable pub compact : Deque A → Deque A
  compact d =
      if d.top == d.bottom
      then record d { top = 0; bottom = 0 }
      else if d.bottom == d.capacity && ltb 0 d.top
      then (let live = d.bottom - d.top in
          record d {
            items = take live (drop d.top d.items) ++ drop live d.items;
            top = 0;
            bottom = live;
          })
      else d

  unfoldable pub store_bottom : Deque A → A → Deque A
  store_bottom d value = record d { items = set d.items d.bottom value; bottom = d.bottom + 1 }

  -- The tasks that a deque holds, from the thieves' end to the owner's.
  unfoldable pub tasks : Deque A → List A
  tasks d = take (d.bottom - d.top) (drop d.top d.items)

  pub record DequeInv (d : Deque A) : Type 0 where
    pub ordered : d.top ≤ d.bottom
    pub in_bounds : d.bottom ≤ d.capacity
    pub allocated : length d.items ≡ d.capacity

module _ {ℓ} {A : Type ℓ} (junk : A) where
  -- `deque_grow`, past the failure of `realloc`
  unfoldable pub deque_grow : Deque A → Deque A
  deque_grow d =
      let next = if d.capacity == 0 then 16 else d.capacity * 2 in
      record d { items = d.items ++ replicate (next - d.capacity) junk; capacity = next }

  unfoldable pub deque_push_bottom : Bool → Deque A → A → Deque A × Bool
  unfolding compact deque_grow store_bottom
  deque_push_bottom alloc d value =
      let c = compact d in
      if c.bottom == c.capacity
      then (if alloc then (store_bottom (deque_grow c) value, true) else (c, false))
      else (store_bottom c value, true)

  unfoldable pub deque_pop_bottom : Deque A → Deque A × Option A
  deque_pop_bottom d =
      if ltb d.top d.bottom
      then (record d { bottom = d.bottom - 1 }, some (get_or d.items (d.bottom - 1) junk))
      else (d, none)

  unfoldable pub deque_steal_top : Deque A → Deque A × Option A
  deque_steal_top d =
      if ltb d.top d.bottom
      then (record d { top = d.top + 1 }, some (get_or d.items d.top junk))
      else (d, none)
