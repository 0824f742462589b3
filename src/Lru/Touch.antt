-- ===== src/Lru/Touch.antt =====
-- data_manager.hpp, DataManagerList: MoveToHead, and Remove on a node that is not in the list.
use cloud_backup_system.Common.{
  ◌≡◌, ◌≢◌, refl, inl, inr, false, true, some, List, arith, Bool-cases, not, ◌==◌,
}
use cloud_backup_system.Node.{Ptr, null, Heap}
use cloud_backup_system.Lru.{DataManagerList, move_to_head, remove}
use cloud_backup_system.Lru.Chain.{mem}
use cloud_backup_system.Lru.Writes.{SameData}
use cloud_backup_system.Lru.Inv.{IsList, IsLru, erase, mem-erase, Distinct-erase, length-erase}
use cloud_backup_system.Lru.Moves.{Removed, detach-Removed, Added, insert_head-Added}
use cloud_backup_system.Lru.Spec.{touch}

-- The outcome of `MoveToHead` on `n`.
pub record Touched (l : DataManagerList) (h : Heap) (n : Ptr) (xs : List Ptr) : Type 0 where
  pub heap : Heap
  pub runs : move_to_head l n h ≡ some (mem n xs, heap)
  pub valid : IsLru l heap (touch n xs)
  pub same : SameData h heap

touch_inside :
    (l : DataManagerList) (h : Heap) (n : Ptr) (xs : List Ptr)
    → IsLru l h xs
    → mem n xs ≡ true
    → Touched l h n xs
unfolding move_to_head
touch_inside l h n xs (w) m =
    let v : IsList l h xs = w.list in
    let r : Removed l h n xs = detach-Removed l h n xs v m in
    let a : Added l.guard r.heap n (erase n xs) =
      insert_head-Added l.guard r.heap n (erase n xs) r.chain (Distinct-erase n xs v.distinct)
        (ground (arith, mem-erase l.guard n xs v.distinct, v.no_guard))
        (ground (arith, mem-erase null n xs v.distinct, v.no_null)) r.linked.self
        (ground (arith, mem-erase n n xs v.distinct, v.no_guard)) in
    record {
      heap = a.heap;
      runs = ground (arith, r.runs, a.runs, r.linked.self, r.linked.next, r.linked.prev);
      valid = rw m (record {
        list = record {
          chain = a.chain;
          distinct = (ground (arith, mem-erase n n xs v.distinct), Distinct-erase n xs v.distinct);
          no_guard = ground (arith, mem-erase l.guard n xs v.distinct, v.no_guard);
          no_null = ground (arith, mem-erase null n xs v.distinct, v.no_null, v.no_guard);
          counted = ground (arith, length-erase n xs, v.counted);
          loose = λ x p. ground (
            arith,
            a.inserted.nexts x,
            a.inserted.prevs x,
            a.first,
            r.detached.nexts x,
            r.detached.prevs x,
            r.inside.next,
            r.inside.prev,
            v.loose x,
            mem-erase x n xs v.distinct,
          );
          uncached = λ x p. ground (
            arith,
            a.same.contents x,
            r.same.contents x,
            v.uncached x,
            mem-erase x n xs v.distinct,
          );
        };
        bounded = ground (arith, length-erase n xs, w.bounded);
        small = w.small;
      });
      same = record {
        infos = λ x. ground (arith, a.same.infos x, r.same.infos x);
        contents = λ x. ground (arith, a.same.contents x, r.same.contents x);
      };
    }

-- On a well-formed list and any node but the guard `MoveToHead` runs without a fault. It reports
-- whether the node is in the list, moves it to the front if so, and changes no file's data.
pub move_to_head-Touched :
    (l : DataManagerList) (h : Heap) (n : Ptr) (xs : List Ptr)
    → IsLru l h xs
    → n ≢ l.guard
    → Touched l h n xs
unfolding move_to_head
move_to_head-Touched l h n xs w ng = elim (Bool-cases (mem n xs)) [
  | inl m ↦ touch_inside l h n xs w m
  | inr m ↦ record {
    heap = h;
    runs = ground (arith, w.list.loose n);
    valid = rw m w;
    same = record { infos = λ x. refl; contents = λ x. refl };
  }
]

-- On a node that is not in the list `Remove` changes nothing, and fails only for a null node.
pub remove_absent :
    (l : DataManagerList) (h : Heap) (n : Ptr) (xs : List Ptr)
    → IsList l h xs
    → n ≢ l.guard
    → mem n xs ≡ false
    → remove l n h ≡ some (not (n == null), l, h)
unfolding remove
remove_absent l h n xs v ng m = ground (arith, v.loose n)
