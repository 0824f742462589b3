-- ===== src/Lru/Chain.antt =====
-- Runs of doubly linked nodes, and what the pointer writes of the list do to them.
use mathlib.Core.Bool.{or_assoc}
use cloud_backup_system.Common.{
  ◌≡◌, refl, true, false, ◌||◌, Bool, List, [], ◌∷◌, ◌++◌, arith, ◌==◌, if◌then◌else◌,
}
use cloud_backup_system.Node.{Ptr, Heap}

abbrev pub mem : Ptr → List Ptr → Bool
mem p [] = false
mem p (q ∷ qs) = (p == q) || mem p qs

abbrev pub Distinct : List Ptr → Type 0
Distinct [] = Unit {0}
Distinct (p ∷ ps) = (mem p ps ≡ false) × Distinct ps

pub mem-append : (x : Ptr) (xs ys : List Ptr) → mem x (xs ++ ys) ≡ (mem x xs || mem x ys)
mem-append x [] ys = refl
mem-append x (y ∷ xs) ys = rw (mem-append x xs ys, or_assoc)

-- From `a` the links lead forth and back over the nodes `zs` to `b`.
abbrev pub Chain : Heap → Ptr → List Ptr → Ptr → Type 0
Chain h a [] b = ((h a).next ≡ b) × ((h b).prev ≡ a)
Chain h a (z ∷ zs) b = ((h a).next ≡ z) × ((h z).prev ≡ a) × Chain h z zs b

-- A chain depends on the next links of all but its end, and on the prev links of all but its start.
pub Chain-frame :
    (h k : Heap) (a : Ptr) (zs : List Ptr) (b : Ptr)
    → ((x : Ptr) → mem x (a ∷ zs) ≡ true → (k x).next ≡ (h x).next)
    → ((x : Ptr) → mem x (zs ++ b ∷ []) ≡ true → (k x).prev ≡ (h x).prev)
    → Chain h a zs b
    → Chain k a zs b
Chain-frame h k a [] b nexts prevs c = ground (arith, nexts a, prevs b)
Chain-frame h k a (z ∷ zs) b nexts prevs c = (
  ground (arith, nexts a),
  ground (arith, prevs z),
  Chain-frame h k z zs b (λ x m. nexts x (ground arith)) (λ x m. prevs x (ground arith)) c.2,
)

-- The last node of a chain is linked to its end.
pub prev-mem :
    (h : Heap) (n a : Ptr) (us vs : List Ptr) (b : Ptr)
    → Chain h a (us ++ n ∷ vs) b
    → mem (h n).prev (a ∷ us) ≡ true
prev-mem h n a [] vs b c = ground arith
prev-mem h n a (u ∷ us) vs b c = ground (arith, prev-mem h n u us vs b c.2)

pub next-mem_after :
    (h : Heap) (n : Ptr) (vs : List Ptr) (b : Ptr)
    → Chain h n vs b
    → mem (h n).next (vs ++ b ∷ []) ≡ true
next-mem_after h n [] b c = ground arith
next-mem_after h n (v ∷ vs) b c = ground arith

pub next-mem :
    (h : Heap) (n a : Ptr) (us vs : List Ptr) (b : Ptr)
    → Chain h a (us ++ n ∷ vs) b
    → mem (h n).next (vs ++ b ∷ []) ≡ true
next-mem h n a [] vs b c = next-mem_after h n vs b c.2
next-mem h n a (u ∷ us) vs b c = next-mem h n u us vs b c.2

-- The effect of taking `n` out, on the links of the heap.
pub record Detached (h k : Heap) (n : Ptr) : Type 0 where
  pub nexts : (x : Ptr) → (k x).next ≡ (if x == (h n).prev then (h n).next else (h x).next)
  pub prevs : (x : Ptr) → (k x).prev ≡ (if x == (h n).next then (h n).prev else (h x).prev)

detach_first :
    (h k : Heap) (n a : Ptr) (vs : List Ptr) (b : Ptr)
    → Detached h k n
    → (h n).prev ≡ a
    → Chain h n vs b
    → Distinct (n ∷ vs)
    → mem a (n ∷ vs) ≡ false
    → mem b (n ∷ vs) ≡ false
    → Chain k a vs b
detach_first h k n a [] b d e c u pa pb = ground (arith, d.nexts a, d.prevs b)
detach_first h k n a (v ∷ vs) b d e c u pa pb = (
  ground (arith, d.nexts a),
  ground (arith, d.prevs v),
  Chain-frame h k v vs b (λ x m. ground (arith, d.nexts x))
      (λ x m. ground (arith, d.prevs x, mem-append x vs (b ∷ []))) c.2,
)

-- Without `n` the rest is still a chain.
pub Chain-detach :
    (h k : Heap) (n a : Ptr) (us vs : List Ptr) (b : Ptr)
    → Detached h k n
    → Chain h a (us ++ n ∷ vs) b
    → Distinct (us ++ n ∷ vs)
    → mem a (us ++ n ∷ vs) ≡ false
    → mem b (us ++ n ∷ vs) ≡ false
    → Chain k a (us ++ vs) b
Chain-detach h k n a [] vs b d c u pa pb = detach_first h k n a vs b d c.1 c.2 u pa pb
Chain-detach h k n a (z ∷ us) vs b d c u pa pb = (
  ground (arith, d.nexts a, prev-mem h n z us vs b c.2, mem-append a us (n ∷ vs)),
  ground (
    arith,
    d.prevs z,
    next-mem h n z us vs b c.2,
    mem-append z us (n ∷ vs),
    mem-append z vs (b ∷ []),
  ),
  Chain-detach h k n z us vs b d c.2 u.1 u.0 (ground arith),
)

-- The effect of putting `n` behind `a`, on the links of the heap.
pub record Inserted (h k : Heap) (n a : Ptr) : Type 0 where
  pub nexts :
      (x : Ptr) → (k x).next ≡ (if x == a then n else if x == n then (h a).next else (h x).next)
  pub prevs :
      (x : Ptr) → (k x).prev ≡ (if x == (h a).next then n else if x == n then a else (h x).prev)

-- With a new node behind its start a chain is still a chain.
pub Chain-insert :
    (h k : Heap) (n a : Ptr) (zs : List Ptr) (b : Ptr)
    → Inserted h k n a
    → Chain h a zs b
    → Distinct zs
    → mem a zs ≡ false
    → mem b zs ≡ false
    → mem n (a ∷ b ∷ zs) ≡ false
    → Chain k a (n ∷ zs) b
Chain-insert h k n a [] b d c u pa pb pn =
    ground (arith, d.nexts a, d.nexts n, d.prevs n, d.prevs b)
Chain-insert h k n a (z ∷ zs) b d c u pa pb pn = (
  ground (arith, d.nexts a),
  ground (arith, d.prevs n),
  (
    ground (arith, d.nexts n),
    ground (arith, d.prevs z),
    Chain-frame h k z zs b (λ x m. ground (arith, d.nexts x))
        (λ x m. ground (arith, d.prevs x, mem-append x zs (b ∷ []))) c.2,
  ),
)
