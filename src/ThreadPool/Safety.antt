-- ===== src/ThreadPool/Safety.antt =====
-- ThreadPool.hpp: the order of the tasks, the slots of the ring, and blocked threads.
use native.Mathlib.Decide.{dec_lt}
use cloud_backup_system.Common.{
  ℕ, zero, suc, ◌-◌, ◌≤◌, ◌<◌, ◌≡◌, ◌≢◌, Option, none, some, List, ◌++◌, arith, get_elem?,
  replicate, is_some, true, false, Bool,
}
use cloud_backup_system.ThreadPool.{
  Pool, Place, pushing, admitted, stored, waiting, claiming, taken, running, all_initial, System,
  Reach, advance, slot,
}
use cloud_backup_system.ThreadPool.Slots.{slots}
use cloud_backup_system.ThreadPool.Ring.{contents}
use cloud_backup_system.ThreadPool.Counts.{
  holds, has_stored, has_taken, total, total-pos, total-get,
}
use cloud_backup_system.ThreadPool.Inv.{items, solid_at}
use cloud_backup_system.ThreadPool.Reachable.{Reach-Inv}

-- In a pool of at least one slot whose threads start outside it: in every reachable state the tasks
-- that workers have got so far are the first of the tasks put in so far, in their order, each once,
-- the rest, at most as many as there are slots, lie in the ring from the consumers' position on, and
-- no worker runs an empty task.
pub fifo {ℓ} :
    {A : Type ℓ} {size : ℕ} {threads : List (Place A)} {s : System A}
    → 0 < size
    → all_initial threads ≡ true
    → Reach size threads s
    → ((n : ℕ) × (s.pushed ≡ s.popped ++ contents s.pool n) × (n ≤ size))
      × ((i : ℕ) (t : Option A) → get_elem? s.threads i ≡ some (running t) → is_some t ≡ true)
fifo {s} pos initial r =
    let v = Reach-Inv pos initial r in
    (
      (items s, v.order, omega (arith, v.permits)),
      λ i t e. solid_at s.threads i (running t) v.solid e,
    )

first_cleared {ℓ} :
    {A : Type ℓ} (q : List (Option A)) (size w k : ℕ)
    → 0 < k
    → slots q size w k ≡ replicate k none
    → slot q w ≡ none
first_cleared q size w zero pos e = absurd (omega arith)
first_cleared q size w (suc k) pos e = cc

-- In a pool of at least one slot whose threads start outside it: in every reachable state the slot
-- that a thread past `_free_slots` is about to write is empty: no push overwrites a task.
pub no_overwrite {ℓ} :
    {A : Type ℓ} {size : ℕ} {threads : List (Place A)} {s : System A}
    → 0 < size
    → all_initial threads ≡ true
    → Reach size threads s
    → (i : ℕ) (t : A) → get_elem? s.threads i ≡ some (admitted t)
    → slot s.pool.task_queue s.pool.productor_pos ≡ none
no_overwrite {s} pos initial r i t e =
    let v = Reach-Inv pos initial r in
    first_cleared s.pool.task_queue s.pool.task_queue_capacity s.pool.productor_pos
      (s.pool.task_queue_capacity - items s)
      (omega (arith, v.sized, v.permits, total-get holds s.threads i (admitted t) e)) v.ring.cleared

-- In a pool of at least one slot whose threads start outside it: in every reachable state a thread
-- that is about to write a slot and a worker that is about to take a task, which hold different
-- mutexes, use different slots.
pub disjoint_slots {ℓ} :
    {A : Type ℓ} {size : ℕ} {threads : List (Place A)} {s : System A}
    → 0 < size
    → all_initial threads ≡ true
    → Reach size threads s
    → (i j : ℕ) (t : A) → get_elem? s.threads i ≡ some (admitted t)
    → get_elem? s.threads j ≡ some claiming
    → s.pool.productor_pos ≢ s.pool.consumer_pos
disjoint_slots {s} pos initial r i j t e f =
    let v = Reach-Inv pos initial r in
    ground (
      arith,
      v.sized,
      v.permits,
      v.ring.productor,
      total-get holds s.threads i (admitted t) e,
      total-get has_stored s.threads j claiming f,
    )

-- A thread that can make a step.
abbrev pub CanMove {ℓ} : {A : Type ℓ} → System A → Type ℓ
CanMove {A} s =
    (i : ℕ) × (pc : Place A) × (get_elem? s.threads i ≡ some pc) × (advance pc s.pool ≢ none)

-- Whether a thread is a worker.
abbrev pub is_worker {ℓ} : {A : Type ℓ} → Place A → Bool
is_worker waiting = true
is_worker claiming = true
is_worker (taken t) = true
is_worker (running t) = true
is_worker _ = false

module _ {ℓ} {A : Type ℓ} (p : Pool A) where
  holds_moves : (pc : Place A) → 1 ≤ holds pc → advance pc p ≢ none
  unfolding advance
  holds_moves (admitted t) h = cc
  holds_moves _ h = absurd (omega arith)

  has_stored_moves : (pc : Place A) → 1 ≤ has_stored pc → advance pc p ≢ none
  unfolding advance
  has_stored_moves stored h = cc
  has_stored_moves claiming h = cc
  has_stored_moves _ h = absurd (omega arith)

  has_taken_moves : (pc : Place A) → 1 ≤ has_taken pc → advance pc p ≢ none
  unfolding advance
  has_taken_moves (taken t) h = cc
  has_taken_moves _ h = absurd (omega arith)

  worker_moves : (pc : Place A) → is_worker pc ≡ true → 0 < p.ready_tasks → advance pc p ≢ none
  unfolding advance
  worker_moves waiting h ready = ground arith
  worker_moves claiming h ready = cc
  worker_moves (taken t) h ready = cc
  worker_moves (running t) h ready = cc
  worker_moves _ h ready = cc

  pushing_moves : (t : A) → 0 < p.free_slots → advance (pushing (some t)) p ≢ none
  unfolding advance
  pushing_moves t free = ground arith

-- In a pool of at least one slot whose threads start outside it: in every reachable state in which a
-- thread is at the wait in `push` of a task that is not empty, and another is a worker, some thread
-- can make a step.
pub no_deadlock {ℓ} :
    {A : Type ℓ} {size : ℕ} {threads : List (Place A)} {s : System A}
    → 0 < size
    → all_initial threads ≡ true
    → Reach size threads s
    → (i j : ℕ) (t : A) (worker : Place A) → get_elem? s.threads i ≡ some (pushing (some t))
    → get_elem? s.threads j ≡ some worker
    → is_worker worker ≡ true
    → CanMove s
no_deadlock {s} pos initial r i j t worker e f w =
    let v = Reach-Inv pos initial r in
    elim (dec_lt 0 (total holds s.threads)) [
      | yes h ↦
          let (k, pc, at, one) = total-pos holds s.threads h in
          (k, pc, at, holds_moves s.pool pc one)
      | no nh ↦ elim (dec_lt 0 (total has_stored s.threads)) [
        | yes h ↦
            let (k, pc, at, one) = total-pos has_stored s.threads h in
            (k, pc, at, has_stored_moves s.pool pc one)
        | no ns ↦ elim (dec_lt 0 (total has_taken s.threads)) [
          | yes h ↦
              let (k, pc, at, one) = total-pos has_taken s.threads h in
              (k, pc, at, has_taken_moves s.pool pc one)
          | no nt ↦ elim (dec_lt 0 s.pool.ready_tasks) [
            | yes h ↦ (j, worker, f, worker_moves s.pool worker w h)
            | no nr ↦ (i, pushing (some t), e, pushing_moves s.pool t (omega (arith, v.permits)))
          ]
        ]
      ]
    ]
