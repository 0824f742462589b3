-- ===== src/Lru/Remove.antt =====
-- data_manager.hpp, DataManagerList: Remove on a node of a well-formed list.
use cloud_backup_system.Common.{
  ◌<◌, ◌^◌, ◌+◌, ◌-◌, ◌%◌, ◌≡◌, true, false, some, List, [], ◌∷◌, arith, length, if◌then◌else◌,
  ◌==◌, refl,
}
use cloud_backup_system.Node.{Ptr, null, Heap}
use cloud_backup_system.Lru.Writes.{clear_node-Cleared}
use cloud_backup_system.Lru.{DataManagerList, remove}
use cloud_backup_system.Lru.Chain.{mem, Chain-frame, mem-append}
use cloud_backup_system.Lru.Inv.{IsList, erase, mem-erase, Distinct-erase, length-erase}
use cloud_backup_system.Lru.Moves.{Removed, detach-Removed}

-- The outcome of removing the node `n` of `xs`.
pub record Dropped (l : DataManagerList) (h : Heap) (n : Ptr) (xs : List Ptr) : Type 0 where
  pub list : DataManagerList
  pub heap : Heap
  pub runs : remove l n h ≡ some (true, list, heap)
  pub valid : IsList list heap (erase n xs)
  pub infos : (x : Ptr) → (heap x).info ≡ (h x).info
  pub contents :
      (x : Ptr) → (heap x).file_pre_content ≡ (if x == n then [] else (h x).file_pre_content)
  pub guard : list.guard ≡ l.guard
  pub capacity : list.capacity ≡ l.capacity

pub remove-Dropped :
    (l : DataManagerList) (h : Heap) (n : Ptr) (xs : List Ptr)
    → IsList l h xs
    → length xs < 2 ^ 64
    → mem n xs ≡ true
    → Dropped l h n xs
unfolding remove
remove-Dropped l h n xs v few m =
    let r : Removed l h n xs = detach-Removed l h n xs v m in
    let (k, runs, c) = clear_node-Cleared n r.heap r.linked.self in
    let outside : mem n (erase n xs) ≡ false = ground (arith, mem-erase n n xs v.distinct) in
    let apart : (n == l.guard) ≡ false = ground (arith, v.no_guard) in
    record {
      list = record l { size = (l.size + 2 ^ 64 - 1) % 2 ^ 64 };
      heap = k;
      runs = ground (arith, r.runs, runs, r.linked.self, r.linked.next, r.linked.prev);
      valid = record {
        chain =
            Chain-frame r.heap k l.guard (erase n xs) l.guard
              (λ x p. ground (arith, c.nexts x, outside, apart))
              (λ x p.
                ground (arith, c.prevs x, outside, apart, mem-append x (erase n xs) (l.guard ∷ [])))
              r.chain;
        distinct = Distinct-erase n xs v.distinct;
        no_guard = ground (arith, mem-erase l.guard n xs v.distinct);
        no_null = ground (arith, mem-erase null n xs v.distinct);
        counted = ground (arith, length-erase n xs);
        loose = λ x p. ground (
          arith,
          c.nexts x,
          c.prevs x,
          r.detached.nexts x,
          r.detached.prevs x,
          r.inside.next,
          r.inside.prev,
          v.loose x,
          mem-erase x n xs v.distinct,
        );
        uncached = λ x p.
            ground
              (arith, c.contents x, r.same.contents x, v.uncached x, mem-erase x n xs v.distinct);
      };
      infos = λ x. ground (arith, c.infos x, r.same.infos x);
      contents = λ x. ground (arith, c.contents x, r.same.contents x);
      guard = refl;
      capacity = refl;
    }
