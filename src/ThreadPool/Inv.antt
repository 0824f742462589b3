-- ===== src/ThreadPool/Inv.antt =====
-- ThreadPool.hpp: the invariant of the pool and its threads, and the steps.
use cloud_backup_system.Common.{
  ℕ, zero, suc, ◌+◌, ◌-◌, ◌≡◌, refl, ap, subst, Bool, true, false, ◌&&◌, Option, none, some, List,
  [], ◌∷◌, ◌++◌, arith, get_elem?, set, append-nil, append_assoc, sym, ◌∙◌, Bool-cases, inl, inr,
  ◌==◌, is_some,
}
use cloud_backup_system.ThreadPool.{
  Pool, Place, pushing, trying, admitted, stored, returned, waiting, claiming, taken, running,
  System, Step, step, advance, puts, takes, store, fetch,
}
use cloud_backup_system.ThreadPool.Ring.{IsRing, contents, store-IsRing, fetch-IsRing}
use cloud_backup_system.ThreadPool.Counts.{holds, has_stored, has_taken, total, total-set}

module _ {ℓ} {A : Type ℓ} where
  -- The tasks that lie in the queue: those not yet announced, announced, or announced to a worker.
  abbrev pub items : System A → ℕ
  items s = total has_stored s.threads + s.pool.ready_tasks

  abbrev pub all_full : List (Option A) → Bool
  all_full [] = true
  all_full (t ∷ ts) = is_some t && all_full ts

  all_full-append : (xs ys : List (Option A)) → all_full (xs ++ ys) ≡ (all_full xs && all_full ys)
  all_full-append [] ys = refl
  all_full-append (x ∷ xs) ys = ground (arith, all_full-append xs ys)

  -- A worker that has a task does not have an empty one.
  abbrev pub is_solid : Place A → Bool
  is_solid (taken t) = is_some t
  is_solid (running t) = is_some t
  is_solid _ = true

  abbrev pub all_solid : List (Place A) → Bool
  all_solid [] = true
  all_solid (x ∷ xs) = is_solid x && all_solid xs

  all_solid-set :
      (xs : List (Place A)) (i : ℕ) (y : Place A)
      → all_solid xs ≡ true
      → is_solid y ≡ true
      → all_solid (set xs i y) ≡ true
  all_solid-set [] i y a h = refl
  all_solid-set (x ∷ xs) zero y a h = ground arith
  all_solid-set (x ∷ xs) (suc i) y a h = ground (arith, all_solid-set xs i y)

  pub solid_at :
      (xs : List (Place A)) (i : ℕ) (x : Place A)
      → all_solid xs ≡ true
      → get_elem? xs i ≡ some x
      → is_solid x ≡ true
  solid_at [] i x a e = cc
  solid_at (z ∷ xs) zero x a e = ground arith
  solid_at (z ∷ xs) (suc i) x a e = solid_at xs i x (ground arith) e

  pub record Inv (size : ℕ) (s : System A) : Type ℓ where
    pub sized : s.pool.task_queue_capacity ≡ size
    pub ring : IsRing s.pool (items s)
    pub permits :
        s.pool.free_slots + total holds s.threads + items s + total has_taken s.threads ≡ size
    pub order : s.pushed ≡ s.popped ++ contents s.pool (items s)
    pub full : all_full s.pushed ≡ true
    pub solid : all_solid s.threads ≡ true

  -- The system after the thread `i` has gone from `pc` to `pc'`.
  abbrev pub moved : System A → ℕ → Place A → Place A → Pool A → System A
  moved s i pc pc' p' = record {
    pool = p';
    threads = set s.threads i pc';
    pushed = s.pushed ++ puts pc;
    popped = s.popped ++ takes pc pc';
  }

  module _ {size : ℕ} (s : System A) (v : Inv size s) (i : ℕ) where
    open s.pool use {free_slots, ready_tasks}

    -- A step that changes only the semaphores.
    quiet :
        (pc pc' : Place A) (f r : ℕ)
        → get_elem? s.threads i ≡ some pc
        → puts pc ≡ []
        → takes pc pc' ≡ []
        → has_stored pc' + r ≡ has_stored pc + s.pool.ready_tasks
        → f + holds pc' + has_taken pc' ≡ s.pool.free_slots + holds pc + has_taken pc
        → is_solid pc' ≡ true
        → Inv size (moved s i pc pc' (record s.pool { free_slots = f; ready_tasks = r }))
    quiet pc pc' f r e np nt hs hf sol =
        let same : total has_stored (set s.threads i pc') + r ≡ items s =
          omega (arith, total-set has_stored s.threads i pc pc' e) in
        record {
          sized = v.sized;
          ring = rw same (record {
            sized = v.ring.sized;
            fits = v.ring.fits;
            in_bounds = v.ring.in_bounds;
            productor = v.ring.productor;
            cleared = v.ring.cleared;
          });
          permits = omega (
            arith,
            v.permits,
            same,
            total-set holds s.threads i pc pc' e,
            total-set has_taken s.threads i pc pc' e,
          );
          order = rw (same, np, nt, append-nil s.pushed, append-nil s.popped) v.order;
          full = rw (np, append-nil) v.full;
          solid = all_solid-set s.threads i pc' v.solid sol;
        }

    stores :
        (t : A)
        → get_elem? s.threads i ≡ some (admitted t)
        → Inv size (moved s i (admitted t) stored (store t s.pool))
    unfolding store
    stores t e =
        let had = total-set has_stored s.threads i (admitted t) stored e in
        let held = total-set holds s.threads i (admitted t) stored e in
        let took = total-set has_taken s.threads i (admitted t) stored e in
        let more : total has_stored (set s.threads i stored) + s.pool.ready_tasks ≡ suc (items s) =
          omega (arith, had) in
        let (ring, order) =
          store-IsRing t s.pool (items s) v.ring (omega (arith, v.permits, v.sized, held)) in
        record {
          sized = v.sized;
          ring = rw more ring;
          permits = omega (arith, v.permits, more, held, took);
          order =
              rw (more, append-nil s.popped, order, v.order)
                (append_assoc s.popped (contents s.pool (items s)) (some t ∷ []));
          full = ground (arith, all_full-append s.pushed (some t ∷ []), v.full);
          solid = all_solid-set s.threads i stored v.solid refl;
        }

    fetches :
        get_elem? s.threads i ≡ some claiming
        → Inv size (moved s i claiming (taken (fetch s.pool).0) (fetch s.pool).1)
    unfolding fetch
    fetches e =
        let (t, p') = fetch s.pool in
        let pc' : Place A = taken t in
        let had = total-set has_stored s.threads i claiming pc' e in
        let held = total-set holds s.threads i claiming pc' e in
        let took = total-set has_taken s.threads i claiming pc' e in
        let n = total has_stored (set s.threads i pc') + s.pool.ready_tasks in
        let less : items s ≡ suc n = omega (arith, had) in
        let (ring, order) = fetch-IsRing s.pool n (subst (IsRing s.pool) less v.ring) in
        let split : s.pushed ≡ s.popped ++ t ∷ contents p' n =
          v.order ∙ ap (◌++◌ s.popped) (ap (contents s.pool) less ∙ order) in
        record {
          sized = v.sized;
          ring = ring;
          permits = omega (arith, v.permits, less, held, took);
          order =
              rw (append-nil s.pushed, split)
                (sym (append_assoc s.popped (t ∷ []) (contents p' n)));
          full = rw (append-nil s.pushed) v.full;
          solid = all_solid-set s.threads i pc' v.solid (
              ground
                (arith, v.full, ap all_full split, all_full-append s.popped (t ∷ contents p' n)));
        }

    -- The same for a step that is known by equations.
    quietly :
        (pc pc' : Place A) (f r : ℕ) (to : Place A) (p' : Pool A)
        → to ≡ pc'
        → p' ≡ record s.pool { free_slots = f; ready_tasks = r }
        → get_elem? s.threads i ≡ some pc
        → puts pc ≡ []
        → takes pc pc' ≡ []
        → has_stored pc' + r ≡ has_stored pc + s.pool.ready_tasks
        → f + holds pc' + has_taken pc' ≡ s.pool.free_slots + holds pc + has_taken pc
        → is_solid pc' ≡ true
        → Inv size (moved s i pc to p')
    quietly pc pc' f r to p' at same e np nt hs hf sol =
        rw (at, same) (quiet pc pc' f r e np nt hs hf sol)

    -- Every step that a thread can make.
    keeps :
        (pc pc' : Place A) (p' : Pool A)
        → get_elem? s.threads i ≡ some pc
        → advance pc s.pool ≡ some (pc', p')
        → Inv size (moved s i pc pc' p')
    unfolding advance
    keeps (pushing none) pc' p' e a =
        quietly (pushing none) (returned false) free_slots ready_tasks pc' p' (cc) (cc) e refl refl
          refl refl refl
    keeps (pushing (some t)) pc' p' e a = elim (Bool-cases (free_slots == 0)) [
      | inl z ↦ absurd (ground arith)
      | inr nz ↦
          quietly (pushing (some t)) (admitted t) (free_slots - 1) ready_tasks pc' p' (ground arith)
            (ground arith) e refl refl refl (ground arith) refl
    ]
    keeps (trying none) pc' p' e a =
        quietly (trying none) (returned false) free_slots ready_tasks pc' p' (cc) (cc) e refl refl
          refl refl refl
    keeps (trying (some t)) pc' p' e a = elim (Bool-cases (free_slots == 0)) [
      | inl z ↦
          quietly (trying (some t)) (returned false) free_slots ready_tasks pc' p' (ground arith)
            (ground arith) e refl refl refl refl refl
      | inr nz ↦
          quietly (trying (some t)) (admitted t) (free_slots - 1) ready_tasks pc' p' (ground arith)
            (ground arith) e refl refl refl (ground arith) refl
    ]
    keeps (admitted t) pc' p' e a =
        let at : pc' ≡ stored = cc in let to : p' ≡ store t s.pool = cc in rw (at, to) (stores t e)
    keeps stored pc' p' e a =
        quietly stored (returned true) free_slots (ready_tasks + 1) pc' p' (cc) (cc) e refl refl
          (omega arith) refl refl
    keeps (returned b) pc' p' e a = cc
    keeps waiting pc' p' e a = elim (Bool-cases (ready_tasks == 0)) [
      | inl z ↦ absurd (ground arith)
      | inr nz ↦
          quietly waiting claiming free_slots (ready_tasks - 1) pc' p' (ground arith) (ground arith)
            e refl refl (ground arith) refl refl
    ]
    keeps claiming pc' p' e a =
        let at : pc' ≡ taken (fetch s.pool).0 = cc in
        let to : p' ≡ (fetch s.pool).1 = cc in rw (at, to) (fetches e)
    keeps (taken t) pc' p' e a =
        quietly (taken t) (running t) (free_slots + 1) ready_tasks pc' p' (cc) (cc) e refl refl refl
          (omega arith) (solid_at s.threads i (taken t) v.solid e)
    keeps (running t) pc' p' e a =
        quietly (running t) waiting free_slots ready_tasks pc' p' (cc) (cc) e refl refl refl refl
          refl

-- Every step of every thread keeps the invariant.
pub Step-Inv {ℓ} : {A : Type ℓ} {size : ℕ} {s t : System A} → Step s t → Inv size s → Inv size t
Step-Inv {s} (step i pc pc' p' e a) v = keeps s v i pc pc' p' e a
