-- ===== src/ThreadPool/Ring.antt =====
-- The ring of the pool: what a store and a fetch do to the tasks that lie in it.
use cloud_backup_system.Common.{
  ℕ, zero, suc, ◌+◌, ◌-◌, ◌%◌, ◌≤◌, ◌<◌, ◌≡◌, refl, ap, Option, none, some, List, [], ◌∷◌, ◌++◌,
  arith, set, replicate, length, length-set, sym, ◌∙◌,
}
use cloud_backup_system.ThreadPool.{Pool, store, fetch, slot}
use cloud_backup_system.ThreadPool.Slots.{slots, next, ahead, mod-next, slots-set, slots-append}

module _ {ℓ} {A : Type ℓ} where
  abbrev pub contents : Pool A → ℕ → List (Option A)
  contents p n = slots p.task_queue p.task_queue_capacity p.consumer_pos n

  -- The ring holds `n` tasks, and every other slot is empty.
  pub record IsRing (p : Pool A) (n : ℕ) : Type ℓ where
    pub sized : length p.task_queue ≡ p.task_queue_capacity
    pub fits : n ≤ p.task_queue_capacity
    pub in_bounds : p.consumer_pos < p.task_queue_capacity
    pub productor : p.productor_pos ≡ ahead p.task_queue_capacity p.consumer_pos n
    pub cleared :
        slots p.task_queue p.task_queue_capacity p.productor_pos (p.task_queue_capacity - n)
        ≡ replicate (p.task_queue_capacity - n) none

  -- A run of empty slots, less its first one, which is written.
  cleared-store :
      (q : List (Option A)) (size w k : ℕ) (v : Option A)
      → w < size
      → k ≤ size
      → 0 < k
      → slots q size w k ≡ replicate k none
      → slots (set q w v) size (next size w) (k - 1) ≡ replicate (k - 1) none
  cleared-store q size w zero v hw hk pos e = absurd (omega arith)
  cleared-store q size w (suc m) v hw hk pos e =
      rw (let same : suc m - 1 ≡ m = omega arith in same)
        (slots-set q size (next size w) w v m (ground arith) hw (ground arith) ∙ cc)

  replicate-append : (k : ℕ) → replicate k none ++ none ∷ [] ≡ replicate {A = Option A} (suc k) none
  replicate-append zero = refl
  replicate-append (suc k) = ap (◌∷◌ none) (replicate-append k)

  -- A run of empty slots, with the slot behind it emptied.
  cleared-fetch :
      (q : List (Option A)) (size w c k : ℕ)
      → w < size
      → k < size
      → length q ≡ size
      → c ≡ ahead size w k
      → slots q size w k ≡ replicate k none
      → slots (set q c none) size w (suc k) ≡ replicate (suc k) none
  cleared-fetch q size w c k hw hk len e run =
      slots-append q size w c none k hw hk len e
      ∙ (ap (λ xs. xs ++ none ∷ []) run ∙ replicate-append k)

  pub store-IsRing :
      (t : A) (p : Pool A) (n : ℕ)
      → IsRing p n
      → n < p.task_queue_capacity
      → IsRing (store t p) (suc n) × (contents (store t p) (suc n) ≡ contents p n ++ some t ∷ [])
  unfolding store
  store-IsRing t p n r room =
      let q = p.task_queue in
      let size = p.task_queue_capacity in
      let c = p.consumer_pos in
      let w = p.productor_pos in
      let w_lt : w < size = ground arith in
      (
        record {
          sized = length-set q w (some t) ∙ r.sized;
          fits = room;
          in_bounds = r.in_bounds;
          productor = ground (arith, mod-next size w w_lt);
          cleared =
              rw
                (mod-next size w w_lt, let same : size - suc n ≡ size - n - 1 = omega arith in same)
                (cleared-store q size w (size - n) (some t) w_lt (omega arith) (omega arith)
                  r.cleared);
        },
        slots-append q size c w (some t) n r.in_bounds room r.sized r.productor,
      )

  pub fetch-IsRing :
      (p : Pool A) (n : ℕ)
      → IsRing p (suc n)
      → IsRing (fetch p).1 n × (contents p (suc n) ≡ (fetch p).0 ∷ contents (fetch p).1 n)
  unfolding fetch
  fetch-IsRing p n r =
      let q = p.task_queue in
      let size = p.task_queue_capacity in
      let c = p.consumer_pos in
      let w = p.productor_pos in
      let w_lt : w < size = ground (arith, r.fits) in
      let step : (c + 1) % size ≡ next size c = mod-next size c r.in_bounds in
      (
        record {
          sized = length-set q c none ∙ r.sized;
          fits = omega (arith, r.fits);
          in_bounds = ground (arith, step);
          productor = ground (arith, step, r.fits);
          cleared = rw (let same : size - n ≡ suc (size - suc n) = omega (arith, r.fits) in same) (
              cleared-fetch q size w c (size - suc n) w_lt (omega arith) r.sized
                (ground (arith, r.fits)) r.cleared);
        },
        rw step (
            ap (◌∷◌ (slot q c)) (
              sym (
                slots-set q size (next size c) c none n (ground arith) r.in_bounds
                  (ground (arith, r.fits))))),
      )
