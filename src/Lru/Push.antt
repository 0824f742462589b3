-- ===== src/Lru/Push.antt =====
-- data_manager.hpp, DataManagerList: RemoveTail and PushToHead on a well-formed list.
use cloud_backup_system.Common.{
  ℕ, zero, suc, ◌⊎◌, ◌+◌, ◌%◌, ◌^◌, ◌<◌, ◌≤◌, ◌≡◌, ◌≢◌, refl, inl, inr, false, true, ◌||◌, not,
  ◌&&◌, some, List, [], ◌∷◌, arith, length, length-take-le, Bool-cases, Bytes, ◌==◌, take, ap,
  subst, if◌then◌else◌,
}
use native.Mathlib.Decide.{dec_lt}
use cloud_backup_system.Node.{Ptr, null, Heap, set_content}
use cloud_backup_system.Lru.{DataManagerList, insert_head, push_to_head}
use cloud_backup_system.Lru.Chain.{mem, Chain-frame}
use cloud_backup_system.Lru.Writes.{set_content-Stored}
use cloud_backup_system.Lru.Inv.{IsList, IsLru}
use cloud_backup_system.Lru.Moves.{Removed, detach-Removed, Added, insert_head-Added}
use cloud_backup_system.Lru.Spec.{admit}
use cloud_backup_system.Lru.Tail.{TailDropped, remove_tail-TailDropped}

-- The outcome of `PushToHead` on `n` with the bytes `c`.
pub record Pushed (l : DataManagerList) (h : Heap) (n : Ptr) (c : Bytes) (xs : List Ptr)
    : Type 0 where
  pub list : DataManagerList
  pub heap : Heap
  pub runs : push_to_head l n c h ≡ some (not (n == null || mem n xs), list, heap)
  pub valid : IsLru list heap (admit l.capacity n xs)
  pub infos : (x : Ptr) → (heap x).info ≡ (h x).info
  pub contents :
      (x : Ptr)
      → (heap x).file_pre_content ≡ (
          if mem x (admit l.capacity n xs)
          then if x == n && not (mem n xs) then c else (h x).file_pre_content
          else [])
  pub guard : list.guard ≡ l.guard
  pub capacity : list.capacity ≡ l.capacity

-- The list after the insertion, before it is cut to its capacity.
record Grown (l : DataManagerList) (h : Heap) (n : Ptr) (c : Bytes) (xs : List Ptr) : Type 0 where
  h1 : Heap
  h2 : Heap
  stores : set_content n c h ≡ some h1
  inserts : insert_head l.guard n h1 ≡ some h2
  valid : IsList (record l { size = (l.size + 1) % 2 ^ 64 }) h2 (n ∷ xs)
  infos : (x : Ptr) → (h2 x).info ≡ (h x).info
  contents : (x : Ptr) → (h2 x).file_pre_content ≡ (if x == n then c else (h x).file_pre_content)

push-Grown :
    (l : DataManagerList) (h : Heap) (n : Ptr) (c : Bytes) (xs : List Ptr)
    → IsLru l h xs
    → n ≢ l.guard
    → n ≢ null
    → mem n xs ≡ false
    → Grown l h n c xs
push-Grown l h n c xs w ng n0 m =
    let v : IsList l h xs = w.list in
    let (h1, stores, s) = set_content-Stored n c h n0 in
    let a : Added l.guard h1 n xs =
      insert_head-Added l.guard h1 n xs
        (Chain-frame h h1 l.guard xs l.guard (λ x p. s.nexts x) (λ x p. s.prevs x) v.chain)
        v.distinct v.no_guard v.no_null n0 (ground arith) in
    record {
      h1 = h1;
      h2 = a.heap;
      stores = stores;
      inserts = a.runs;
      valid = record {
        chain = a.chain;
        distinct = (m, v.distinct);
        no_guard = ground (arith, v.no_guard);
        no_null = ground (arith, v.no_null);
        counted = ground (arith, v.counted, w.bounded, w.small);
        loose = λ x p. ground (
          arith,
          a.inserted.nexts x,
          a.inserted.prevs x,
          a.first,
          s.nexts x,
          s.prevs x,
          v.loose x,
        );
        uncached = λ x p. ground (arith, a.same.contents x, s.contents x, v.uncached x);
      };
      infos = λ x. ground (arith, a.same.infos x, s.infos x);
      contents = λ x. ground (arith, a.same.contents x, s.contents x);
    }

take-all {ℓ} : {A : Type ℓ} (n : ℕ) (xs : List A) → length xs ≤ n → take n xs ≡ xs
take-all zero [] h = refl
take-all zero (x ∷ xs) h = absurd (omega arith)
take-all (suc n) [] h = refl
take-all (suc n) (x ∷ xs) h = ap (◌∷◌ x) (take-all n xs (omega arith))

push_refused :
    (l : DataManagerList) (h : Heap) (n : Ptr) (c : Bytes) (xs : List Ptr)
    → IsLru l h xs
    → (n ≡ null) ⊎ (mem n xs ≡ true)
    → Pushed l h n c xs
unfolding push_to_head
push_refused l h n c xs w (inl e) = record {
  list = l;
  heap = h;
  runs = ground arith;
  valid = subst (IsLru l h) (ground arith) w;
  infos = λ x. refl;
  contents = λ x. ground (arith, w.list.no_null, w.list.uncached x);
  guard = refl;
  capacity = refl;
}
push_refused l h n c xs w (inr e) =
    let r : Removed l h n xs = detach-Removed l h n xs w.list e in
    record {
      list = l;
      heap = h;
      runs = ground (arith, r.linked.next, r.linked.self);
      valid = subst (IsLru l h) (ground arith) w;
      infos = λ x. refl;
      contents = λ x. ground (arith, w.list.uncached x);
      guard = refl;
      capacity = refl;
    }

push_roomy :
    (l : DataManagerList) (h : Heap) (n : Ptr) (c : Bytes) (xs : List Ptr)
    → IsLru l h xs
    → n ≢ l.guard
    → n ≢ null
    → mem n xs ≡ false
    → length xs < l.capacity
    → Pushed l h n c xs
unfolding push_to_head
push_roomy l h n c xs w ng n0 m room =
    let g : Grown l h n c xs = push-Grown l h n c xs w ng n0 m in
    let fits : admit l.capacity n xs ≡ n ∷ xs = ground (arith, take-all l.capacity (n ∷ xs)) in
    record {
      list = record l { size = (l.size + 1) % 2 ^ 64 };
      heap = g.h2;
      runs = ground (arith, g.stores, g.inserts, g.valid.counted, w.list.loose n);
      valid = rw fits (record { list = g.valid; bounded = room; small = w.small });
      infos = g.infos;
      contents = λ x. ground (arith, g.contents x, w.list.uncached x, ap (mem x) fits);
      guard = refl;
      capacity = refl;
    }

push_full :
    (l : DataManagerList) (h : Heap) (n : Ptr) (c : Bytes) (xs : List Ptr)
    → IsLru l h xs
    → n ≢ l.guard
    → n ≢ null
    → mem n xs ≡ false
    → length xs ≡ l.capacity
    → Pushed l h n c xs
unfolding push_to_head
push_full l h n c xs w ng n0 m full =
    let g : Grown l h n c xs = push-Grown l h n c xs w ng n0 m in
    let grown : DataManagerList = record l { size = (l.size + 1) % 2 ^ 64 } in
    let t : TailDropped grown g.h2 n xs =
      remove_tail-TailDropped grown g.h2 n xs g.valid (omega (arith, w.bounded, w.small)) in
    let cut : admit l.capacity n xs ≡ take (length xs) (n ∷ xs) = ground arith in
    record {
      list = t.list;
      heap = t.heap;
      runs = ground (arith, g.stores, g.inserts, g.valid.counted, w.list.loose n, t.runs);
      valid = rw cut (record {
        list = t.valid;
        bounded = omega (arith, t.capacity, length-take-le (length xs) (n ∷ xs));
        small = omega (arith, t.capacity, w.small);
      });
      infos = λ x. ground (arith, t.infos x, g.infos x);
      contents =
          λ x. ground (arith, t.contents x, g.contents x, ap (mem x) cut, t.valid.uncached x);
      guard = t.guard;
      capacity = t.capacity;
    }

-- On a well-formed list of at most its capacity and any node but the guard `PushToHead` runs without
-- a fault. It fails on a null node and on one that is in the list, which change nothing; it puts any
-- other in front with its bytes, and then the nodes over the capacity are gone from the end with
-- their bytes. No file's information changes.
pub push_to_head-Pushed :
    (l : DataManagerList) (h : Heap) (n : Ptr) (c : Bytes) (xs : List Ptr)
    → IsLru l h xs
    → n ≢ l.guard
    → Pushed l h n c xs
push_to_head-Pushed l h n c xs w ng = elim (Bool-cases (n == null || mem n xs)) [
  | inl e ↦ push_refused l h n c xs w (ground arith)
  | inr e ↦ elim (dec_lt (length xs) l.capacity) [
    | yes room ↦ push_roomy l h n c xs w ng (ground arith) (ground arith) room
    | no full ↦
        push_full l h n c xs w ng (ground arith) (ground arith) (omega (arith, w.bounded, full))
  ]
]
