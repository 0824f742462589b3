-- ===== src/Lru/Inv.antt =====
-- When a store holds a well-formed list, and what follows for the links of a node in it.
use cloud_backup_system.Common.{
  Bool-cases, inl, inr, ◌+◌, ◌≤◌, ◌<◌, ◌^◌, ◌≡◌, refl, ◌≢◌, true, false, List, [], ◌∷◌, ◌++◌, arith,
  ◌==◌, if◌then◌else◌, length, ap,
}
use cloud_backup_system.Node.{Ptr, null, Heap}
use cloud_backup_system.Lru.{DataManagerList}
use cloud_backup_system.Lru.Chain.{mem, Distinct, Chain, mem-append, prev-mem, next-mem}

-- `xs` are the nodes of the list behind the guard, the most recently used first.
pub record IsList (l : DataManagerList) (h : Heap) (xs : List Ptr) : Type 0 where
  pub chain : Chain h l.guard xs l.guard
  pub distinct : Distinct xs
  pub no_guard : mem l.guard xs ≡ false
  pub no_null : mem null (l.guard ∷ xs) ≡ false
  pub counted : l.size ≡ length xs
  pub loose : (x : Ptr) → mem x (l.guard ∷ xs) ≡ false → ((h x).next ≡ null) × ((h x).prev ≡ null)
  pub uncached : (x : Ptr) → mem x xs ≡ false → (h x).file_pre_content ≡ []

-- The capacity comes from an `unsigned` entry of the configuration.
pub record IsLru (l : DataManagerList) (h : Heap) (xs : List Ptr) : Type 0 where
  pub list : IsList l h xs
  pub bounded : length xs ≤ l.capacity
  pub small : l.capacity < 2 ^ 32

abbrev pub erase : Ptr → List Ptr → List Ptr
erase n [] = []
erase n (x ∷ xs) = if n == x then xs else x ∷ erase n xs

-- The place of a node in a list that holds it.
pub record Place (n : Ptr) (xs : List Ptr) : Type 0 where
  pub before : List Ptr
  pub after : List Ptr
  pub whole : xs ≡ before ++ n ∷ after
  pub rest : erase n xs ≡ before ++ after

pub place : (n : Ptr) (xs : List Ptr) → mem n xs ≡ true → Place n xs
place n [] m = cc
place n (x ∷ xs) m = elim (Bool-cases (n == x)) [
  | inl e ↦ record { before = []; after = xs; whole = ground arith; rest = rw e }
  | inr e ↦
      let p : Place n xs = place n xs (ground arith) in
      record {
        before = x ∷ p.before;
        after = p.after;
        whole = ap (◌∷◌ x) p.whole;
        rest = rw e (ap (◌∷◌ x) p.rest);
      }
]

pub mem-erase :
    (x n : Ptr) (xs : List Ptr)
    → Distinct xs
    → mem x (erase n xs) ≡ (if x == n then false else mem x xs)
mem-erase x n [] d = ground arith
mem-erase x n (y ∷ xs) d = ground (arith, mem-erase x n xs d.1)

pub Distinct-erase : (n : Ptr) (xs : List Ptr) → Distinct xs → Distinct (erase n xs)
Distinct-erase n [] d = tt
Distinct-erase n (y ∷ xs) d = ground (arith, Distinct-erase n xs d.1, mem-erase y n xs d.1)

pub length-erase :
    (n : Ptr) (xs : List Ptr) → length xs ≡ length (erase n xs) + (if mem n xs then 1 else 0)
length-erase n [] = refl
length-erase n (y ∷ xs) = ground (arith, length-erase n xs)

-- The neighbours of a node of the list are neither null nor the node itself.
pub record Linked (h : Heap) (n : Ptr) : Type 0 where
  pub self : n ≢ null
  pub next : (h n).next ≢ null
  pub prev : (h n).prev ≢ null
  pub apart : (h n).prev ≢ n

not-mem-before : (n : Ptr) (us vs : List Ptr) → Distinct (us ++ n ∷ vs) → mem n us ≡ false
not-mem-before n [] vs d = refl
not-mem-before n (u ∷ us) vs d =
    ground (arith, not-mem-before n us vs d.1, mem-append u us (n ∷ vs))

pub IsList-Linked :
    (l : DataManagerList) (h : Heap) (n : Ptr) (us vs : List Ptr)
    → IsList l h (us ++ n ∷ vs)
    → Linked h n
IsList-Linked l h n us vs v = record {
  self = ground (arith, mem-append null us (n ∷ vs));
  next = ground (
    arith,
    next-mem h n l.guard us vs l.guard v.chain,
    mem-append null us (n ∷ vs),
    mem-append null vs (l.guard ∷ []),
  );
  prev = ground (arith, prev-mem h n l.guard us vs l.guard v.chain, mem-append null us (n ∷ vs));
  apart = ground (
    arith,
    prev-mem h n l.guard us vs l.guard v.chain,
    not-mem-before n us vs v.distinct,
    mem-append l.guard us (n ∷ vs),
  );
}

-- The neighbours of a node of the list are nodes of the list or its guard.
pub record Inside (h : Heap) (guard n : Ptr) (xs : List Ptr) : Type 0 where
  pub next : mem (h n).next (guard ∷ xs) ≡ true
  pub prev : mem (h n).prev (guard ∷ xs) ≡ true

pub Chain-Inside :
    (h : Heap) (guard n : Ptr) (us vs : List Ptr)
    → Chain h guard (us ++ n ∷ vs) guard
    → Inside h guard n (us ++ n ∷ vs)
Chain-Inside h guard n us vs c =
    let q = (h n).next in
    let p = (h n).prev in
    record {
      next = ground (
        arith,
        next-mem h n guard us vs guard c,
        mem-append q us (n ∷ vs),
        mem-append q vs (guard ∷ []),
      );
      prev = ground (arith, prev-mem h n guard us vs guard c, mem-append p us (n ∷ vs));
    }
