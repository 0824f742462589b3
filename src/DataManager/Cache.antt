-- ===== src/DataManager/Cache.antt =====
-- What the manager's cache promises: names with the first bytes of their files, the most recently
-- used first, with no pointers and no store; and the view of the linked list as such a cache.
use cloud_backup_system.Common.{
  ℕ, ◌≡◌, refl, true, Option, none, some, List, [], ◌∷◌, arith, Bytes, bytes_eq, ◌==◌,
  if◌then◌else◌, take, ap₂, ap, zero, suc,
}
use cloud_backup_system.Node.{Ptr, Heap}
use cloud_backup_system.Lru.Chain.{mem}
use cloud_backup_system.Lru.Inv.{erase}

abbrev pub Cache : Type 0
Cache = List (Bytes × Bytes)

abbrev pub find : Bytes → Cache → Option Bytes
find k [] = none
find k ((j, c) ∷ m) = if bytes_eq j k then some c else find k m

-- The first entry of a name goes.
abbrev pub drop_name : Bytes → Cache → Cache
drop_name k [] = []
drop_name k ((j, c) ∷ m) = if bytes_eq j k then m else (j, c) ∷ drop_name k m

-- A read of a name that is there makes it the most recent one.
abbrev pub get : Bytes → Cache → Bytes × Cache
get k m = elim (find k m) [ none ↦ ([], m) | some c ↦ (c, (k, c) ∷ drop_name k m) ]

-- A write of a name that is there does too, and keeps its bytes; a new name comes in front, and what
-- is over the capacity falls off the end.
abbrev pub put : ℕ → Bytes → Bytes → Cache → Cache
put capacity k c m = elim (find k m) [
  | none ↦ take capacity ((k, c) ∷ m)
  | some old ↦ (k, old) ∷ drop_name k m
]

abbrev pub entry : Heap → Ptr → Bytes × Bytes
entry h p = ((h p).info.filename, (h p).file_pre_content)

abbrev pub view : Heap → List Ptr → Cache
view h [] = []
view h (p ∷ ps) = entry h p ∷ view h ps

-- `p` is the only node of `xs` with this name.
abbrev pub Only : Heap → Bytes → Ptr → List Ptr → Type 0
Only h name p xs = (q : Ptr) → mem q xs ≡ true → bytes_eq (h q).info.filename name ≡ (q == p)

pub find-view :
    (h : Heap) (name : Bytes) (p : Ptr) (xs : List Ptr)
    → Only h name p xs
    → find name (view h xs) ≡ (if mem p xs then some (h p).file_pre_content else none)
find-view h name p [] o = refl
find-view h name p (q ∷ xs) o =
    ground (arith, o q, find-view h name p xs (λ r m. o r (ground arith)), ap h)

pub drop_name-view :
    (h : Heap) (name : Bytes) (p : Ptr) (xs : List Ptr)
    → Only h name p xs
    → drop_name name (view h xs) ≡ view h (erase p xs)
drop_name-view h name p [] o = refl
drop_name-view h name p (q ∷ xs) o =
    ground (arith, o q, drop_name-view h name p xs (λ r m. o r (ground arith)))

-- The view depends only on the data of its nodes.
pub view-same :
    (h k : Heap) (xs : List Ptr)
    → ((q : Ptr) → mem q xs ≡ true → entry k q ≡ entry h q)
    → view k xs ≡ view h xs
view-same h k [] same = refl
view-same h k (q ∷ xs) same =
    ap₂ ◌∷◌ (same q (ground arith)) (view-same h k xs (λ r m. same r (ground arith)))

pub view-take : (h : Heap) (n : ℕ) (xs : List Ptr) → view h (take n xs) ≡ take n (view h xs)
view-take h zero xs = refl
view-take h (suc n) [] = refl
view-take h (suc n) (x ∷ xs) = ap (◌∷◌ (entry h x)) (view-take h n xs)
