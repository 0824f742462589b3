-- ===== src/ThreadPool/Tests.antt =====
-- Runs of a pool with two slots, two threads that push and a worker.
use cloud_backup_system.Common.{
  ℕ, ◌≡◌, ◌≢◌, ◌≤◌, refl, true, Option, none, some, List, [], ◌∷◌, ◌++◌, arith, get_elem?, is_some,
}
use cloud_backup_system.ThreadPool.{
  Pool, Place, pushing, admitted, stored, returned, waiting, claiming, taken, running, System,
  Reach, start, later, step, init, store, fetch, advance, slot,
}
use cloud_backup_system.ThreadPool.Ring.{contents}
use cloud_backup_system.ThreadPool.Safety.{fifo, no_overwrite, disjoint_slots, no_deadlock, CanMove}

abbrev crew : List (Place ℕ)
crew = pushing (some 7) ∷ waiting ∷ pushing (some 8) ∷ []

abbrev pool_of : List (Option ℕ) → ℕ → ℕ → ℕ → ℕ → Pool ℕ
pool_of q c p free ready = record {
  task_queue = q;
  task_queue_capacity = 2;
  consumer_pos = c;
  productor_pos = p;
  free_slots = free;
  ready_tasks = ready;
}

-- The first thread has pushed its task.
abbrev pushed_one : System ℕ
pushed_one = record {
  pool = pool_of (some 7 ∷ none ∷ []) 0 1 1 1;
  threads = returned true ∷ waiting ∷ pushing (some 8) ∷ [];
  pushed = some 7 ∷ [];
  popped = [];
}

pushed_one-Reach : Reach 2 crew pushed_one
unfolding init store advance
pushed_one-Reach =
    later
      (later
        (later start
          (step 0 (pushing (some 7)) (admitted 7) (pool_of (none ∷ none ∷ []) 0 0 1 0) refl refl))
        (step 0 (admitted 7) stored (pool_of (some 7 ∷ none ∷ []) 0 1 1 0) refl refl))
      (step 0 stored (returned true) (pool_of (some 7 ∷ none ∷ []) 0 1 1 1) refl refl)

-- The other thread is about to write its slot while the worker is about to take the task.
abbrev crossing : System ℕ
crossing = record {
  pool = pool_of (some 7 ∷ none ∷ []) 0 1 0 0;
  threads = returned true ∷ claiming ∷ admitted 8 ∷ [];
  pushed = some 7 ∷ [];
  popped = [];
}

crossing-Reach : Reach 2 crew crossing
unfolding advance
crossing-Reach =
    later
      (later pushed_one-Reach
        (step 1 waiting claiming (pool_of (some 7 ∷ none ∷ []) 0 1 1 0) refl refl))
      (step 2 (pushing (some 8)) (admitted 8) (pool_of (some 7 ∷ none ∷ []) 0 1 0 0) refl refl)

-- The second task is in its slot and the worker runs the first one.
abbrev busy : System ℕ
busy = record {
  pool = pool_of (none ∷ some 8 ∷ []) 1 0 1 0;
  threads = returned true ∷ running (some 7) ∷ stored ∷ [];
  pushed = some 7 ∷ some 8 ∷ [];
  popped = some 7 ∷ [];
}

busy-Reach : Reach 2 crew busy
unfolding advance store fetch
busy-Reach =
    later
      (later
        (later crossing-Reach
          (step 2 (admitted 8) stored (pool_of (some 7 ∷ some 8 ∷ []) 0 0 0 0) refl refl))
        (step 1 claiming (taken (some 7)) (pool_of (none ∷ some 8 ∷ []) 1 0 0 0) refl refl))
      (step 1 (taken (some 7)) (running (some 7)) (pool_of (none ∷ some 8 ∷ []) 1 0 1 0) refl refl)

fifo_example :
    ((n : ℕ) × (some 7 ∷ some 8 ∷ [] ≡ (some 7 ∷ []) ++ contents busy.pool n) × (n ≤ 2))
    × ((i : ℕ) (t : Option ℕ) → get_elem? busy.threads i ≡ some (running t) → is_some t ≡ true)
fifo_example = fifo (omega arith) refl busy-Reach

no_overwrite_example : slot crossing.pool.task_queue crossing.pool.productor_pos ≡ none
no_overwrite_example = no_overwrite (omega arith) refl crossing-Reach 2 8 refl

disjoint_slots_example : crossing.pool.productor_pos ≢ crossing.pool.consumer_pos
disjoint_slots_example = disjoint_slots (omega arith) refl crossing-Reach 2 1 8 refl refl

no_deadlock_example : CanMove pushed_one
no_deadlock_example = no_deadlock (omega arith) refl pushed_one-Reach 2 1 8 waiting refl refl refl
