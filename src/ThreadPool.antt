-- ===== src/ThreadPool.antt =====
-- ThreadPool.hpp: a bounded queue of tasks in a ring, two semaphores, any number of threads that
-- push and of workers that take. A thread is its place in the code; the sections that a mutex
-- guards are one step each. (A push and a fetch hold different mutexes and touch different fields.)
-- An empty `std::function` is `none`.
pub mod Slots
pub mod Counts
pub mod Ring
pub mod Inv
pub mod Reachable
pub mod Safety
mod Tests
use cloud_backup_system.Common.{
  ℕ, ◌+◌, ◌-◌, ◌%◌, ◌≡◌, Bool, true, false, ◌&&◌, Option, none, some, List, [], ◌∷◌, ◌++◌, ◌==◌,
  if◌then◌else◌, get_elem?, set, replicate,
}

pub record Pool {ℓ} (A : Type ℓ) : Type ℓ where
  pub task_queue : List (Option A)
  pub task_queue_capacity : ℕ
  pub consumer_pos : ℕ
  pub productor_pos : ℕ
  pub free_slots : ℕ
  pub ready_tasks : ℕ

-- Where a thread is: in `push` or `try_push` of a task, or in the loop of a worker.
pub data Place {ℓ} (A : Type ℓ) : Type ℓ where
  pushing : Option A → Place A
  trying : Option A → Place A
  admitted : A → Place A
  stored : Place A
  returned : Bool → Place A
  waiting : Place A
  claiming : Place A
  taken : Option A → Place A
  running : Option A → Place A

module _ {ℓ} {A : Type ℓ} where
  -- The constructor.
  pub init : ℕ → Pool A
  init capacity = record {
    task_queue = replicate capacity none;
    task_queue_capacity = capacity;
    consumer_pos = 0;
    productor_pos = 0;
    free_slots = capacity;
    ready_tasks = 0;
  }

  -- A slot out of range reads as an empty task.
  abbrev pub slot : List (Option A) → ℕ → Option A
  slot q i = elim (get_elem? q i) [ none ↦ none | some t ↦ t ]

  -- The section of `push` and `try_push` under the productors' mutex.
  pub store : A → Pool A → Pool A
  store t p = record p {
    task_queue = set p.task_queue p.productor_pos (some t);
    productor_pos = (p.productor_pos + 1) % p.task_queue_capacity;
  }

  -- The section of a worker under the consumers' mutex.
  pub fetch : Pool A → Option A × Pool A
  fetch p = (
    slot p.task_queue p.consumer_pos,
    record p {
      task_queue = set p.task_queue p.consumer_pos none;
      consumer_pos = (p.consumer_pos + 1) % p.task_queue_capacity;
    },
  )

  -- One step of a thread; `none` while it is blocked on a semaphore, and when it has returned.
  pub advance : Place A → Pool A → Option (Place A × Pool A)
  advance (pushing none) p = some (returned false, p)
  advance (pushing (some t)) p =
      if p.free_slots == 0
      then none
      else some (admitted t, record p { free_slots = p.free_slots - 1 })
  advance (trying none) p = some (returned false, p)
  advance (trying (some t)) p =
      if p.free_slots == 0
      then some (returned false, p)
      else some (admitted t, record p { free_slots = p.free_slots - 1 })
  advance (admitted t) p = some (stored, store t p)
  advance stored p = some (returned true, record p { ready_tasks = p.ready_tasks + 1 })
  advance (returned b) p = none
  advance waiting p =
      if p.ready_tasks == 0
      then none
      else some (claiming, record p { ready_tasks = p.ready_tasks - 1 })
  advance claiming p = let (t, p') = fetch p in some (taken t, p')
  advance (taken t) p = some (running t, record p { free_slots = p.free_slots + 1 })
  advance (running t) p = some (waiting, p)

  -- What a step adds to the record of the tasks put into the queue, and to that of the tasks that a
  -- worker has in its hands after the step that takes one.
  abbrev pub puts : Place A → List (Option A)
  puts (admitted t) = some t ∷ []
  puts _ = []

  abbrev pub takes : Place A → Place A → List (Option A)
  takes claiming (taken t) = t ∷ []
  takes _ _ = []

-- The pool with its threads; `pushed` and `popped` record the tasks in order and are read by no
-- thread.
pub record System {ℓ} (A : Type ℓ) : Type ℓ where
  pub pool : Pool A
  pub threads : List (Place A)
  pub pushed : List (Option A)
  pub popped : List (Option A)

-- Any thread that is not blocked may go next.
pub data Step {ℓ} {A : Type ℓ} (s : System A) : System A → Type ℓ where
  step :
      (i : ℕ) (pc pc' : Place A) (p' : Pool A)
      → get_elem? s.threads i ≡ some pc
      → advance pc s.pool ≡ some (pc', p')
      → Step s (record {
        pool = p';
        threads = set s.threads i pc';
        pushed = s.pushed ++ puts pc;
        popped = s.popped ++ takes pc pc';
      })

-- A thread starts outside the pool: about to push or to try, or at the head of a worker's loop.
abbrev pub is_initial {ℓ} : {A : Type ℓ} → Place A → Bool
is_initial (pushing t) = true
is_initial (trying t) = true
is_initial waiting = true
is_initial _ = false

abbrev pub all_initial {ℓ} : {A : Type ℓ} → List (Place A) → Bool
all_initial [] = true
all_initial (pc ∷ pcs) = is_initial pc && all_initial pcs

pub data Reach {ℓ} {A : Type ℓ} (capacity : ℕ) (threads : List (Place A)) : System A → Type ℓ where
  start :
      Reach capacity threads
        (record { pool = init capacity; threads = threads; pushed = []; popped = [] })
  later : {s t : System A} → Reach capacity threads s → Step s t → Reach capacity threads t
