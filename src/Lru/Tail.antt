-- ===== src/Lru/Tail.antt =====
-- data_manager.hpp, RemoveTail.
use cloud_backup_system.Common.{
  ◌^◌, ◌<◌, ◌≡◌, true, some, List, [], ◌∷◌, arith, length, take, ap, subst,
}
use cloud_backup_system.Node.{Ptr, Heap}
use cloud_backup_system.Lru.{DataManagerList, remove_tail}
use cloud_backup_system.Lru.Chain.{mem, Chain, Distinct}
use cloud_backup_system.Lru.Inv.{IsList, erase, mem-erase}
use cloud_backup_system.Lru.Remove.{Dropped, remove-Dropped}

-- The node before the end of a chain is its last one.
record Last (t : Ptr) (x : Ptr) (xs : List Ptr) : Type 0 where
  inside : mem t (x ∷ xs) ≡ true
  init : erase t (x ∷ xs) ≡ take (length xs) (x ∷ xs)

Chain-Last :
    (h : Heap) (a x : Ptr) (xs : List Ptr) (b : Ptr)
    → Chain h a (x ∷ xs) b
    → Distinct (x ∷ xs)
    → Last (h b).prev x xs
Chain-Last h a x [] b c d = record { inside = ground arith; init = ground arith }
Chain-Last h a x (y ∷ ys) b c d =
    let l : Last (h b).prev y ys = Chain-Last h x y ys b c.2 d.1 in
    record { inside = ground (arith, l.inside); init = ground (arith, l.inside, l.init) }

-- The outcome of `RemoveTail` on the list `x ∷ xs`.
pub record TailDropped (l : DataManagerList) (h : Heap) (x : Ptr) (xs : List Ptr) : Type 0 where
  pub list : DataManagerList
  pub heap : Heap
  pub runs : remove_tail l h ≡ some (true, list, heap)
  pub valid : IsList list heap (take (length xs) (x ∷ xs))
  pub infos : (y : Ptr) → (heap y).info ≡ (h y).info
  pub contents :
      (y : Ptr)
      → mem y (take (length xs) (x ∷ xs)) ≡ true
      → (heap y).file_pre_content ≡ (h y).file_pre_content
  pub guard : list.guard ≡ l.guard
  pub capacity : list.capacity ≡ l.capacity

pub remove_tail-TailDropped :
    (l : DataManagerList) (h : Heap) (x : Ptr) (xs : List Ptr)
    → IsList l h (x ∷ xs)
    → length (x ∷ xs) < 2 ^ 64
    → TailDropped l h x xs
unfolding remove_tail
remove_tail-TailDropped l h x xs v few =
    let t = (h l.guard).prev in
    let e : Last t x xs = Chain-Last h l.guard x xs l.guard v.chain v.distinct in
    let d : Dropped l h t (x ∷ xs) = remove-Dropped l h t (x ∷ xs) v few e.inside in
    record {
      list = d.list;
      heap = d.heap;
      runs = ground (arith, d.runs, v.no_guard, v.no_null, e.inside);
      valid = subst (IsList d.list d.heap) e.init d.valid;
      infos = d.infos;
      contents = λ y m.
          ground
            (arith, d.contents y, mem-erase y t (x ∷ xs) v.distinct, e.init, ap (mem y) e.init);
      guard = d.guard;
      capacity = d.capacity;
    }
