-- ===== src/Lru/Lifetime.antt =====
-- data_manager.hpp, DataManagerList: the constructor and the destructor.
use cloud_backup_system.Common.{
  ℕ, zero, suc, ◌+◌, ◌^◌, ◌<◌, ◌≡◌, ◌≢◌, refl, false, true, some, List, [], ◌∷◌, arith, length,
  ◌==◌, if◌then◌else◌,
}
use cloud_backup_system.Node.{Ptr, null, Heap, update}
use cloud_backup_system.Lru.{DataManagerList, init, destroy, destroy_loop}
use cloud_backup_system.Lru.Chain.{mem, Chain, Distinct}
use cloud_backup_system.Lru.Writes.{SameData, clear_node-Cleared}
use cloud_backup_system.Lru.Inv.{IsList, IsLru}

-- A store in which no node has a link or cached bytes.
pub record IsBlank (h : Heap) : Type 0 where
  pub nexts : (x : Ptr) → (h x).next ≡ null
  pub prevs : (x : Ptr) → (h x).prev ≡ null
  pub contents : (x : Ptr) → (h x).file_pre_content ≡ []

-- The outcome of the constructor.
pub record Started (guard : Ptr) (capacity : ℕ) (h : Heap) : Type 0 where
  pub list : DataManagerList
  pub heap : Heap
  pub runs : init guard capacity h ≡ some (list, heap)
  pub valid : IsLru list heap []
  pub same : SameData h heap
  pub guarded : list.guard ≡ guard

-- In a store in which no node has links or cached bytes the constructor, given an address that is
-- not null and a capacity below 2 ^ 32, makes a well-formed empty list with that guard.
pub init-Started :
    (guard : Ptr) (capacity : ℕ) (h : Heap)
    → guard ≢ null
    → capacity < 2 ^ 32
    → IsBlank h
    → Started guard capacity h
unfolding init update
init-Started guard capacity h g0 small b =
    let h1 : Heap = update h guard (record (h guard) { prev = guard }) in
    let l : DataManagerList = record { size = 0; capacity = capacity; guard = guard } in
    record {
      list = l;
      heap = update h1 guard (record (h1 guard) { next = guard });
      runs = ground arith;
      valid = record {
        list = record {
          chain = ground arith;
          distinct = tt;
          no_guard = refl;
          no_null = ground arith;
          counted = refl;
          loose = λ x p. ground (arith, b.nexts x, b.prevs x);
          uncached = λ x p. ground (arith, b.contents x);
        };
        bounded = omega arith;
        small = small;
      };
      same = record { infos = λ x. ground arith; contents = λ x. ground arith };
      guarded = refl;
    }

-- The effect of the destructor's loop on the nodes `zs`.
pub record Released (h k : Heap) (zs : List Ptr) : Type 0 where
  pub nexts : (x : Ptr) → (k x).next ≡ (if mem x zs then null else (h x).next)
  pub prevs : (x : Ptr) → (k x).prev ≡ (if mem x zs then null else (h x).prev)
  pub contents :
      (x : Ptr) → (k x).file_pre_content ≡ (if mem x zs then [] else (h x).file_pre_content)
  pub infos : (x : Ptr) → (k x).info ≡ (h x).info

-- From `c` the next links lead over `zs` to `b`.
abbrev Walk : Heap → Ptr → List Ptr → Ptr → Type 0
Walk h c [] b = c ≡ b
Walk h c (z ∷ zs) b = (c ≡ z) × Walk h (h z).next zs b

Walk-frame :
    (h k : Heap) (c : Ptr) (zs : List Ptr) (b : Ptr)
    → ((x : Ptr) → mem x zs ≡ true → (k x).next ≡ (h x).next)
    → Walk h c zs b
    → Walk k c zs b
Walk-frame h k c [] b same w = w
Walk-frame h k c (z ∷ zs) b same w =
    let e : (k z).next ≡ (h z).next = same z (ground arith) in
    (w.0, rw e (Walk-frame h k (h z).next zs b (λ x m. same x (ground arith)) w.1))

Chain-Walk :
    (h : Heap) (a : Ptr) (zs : List Ptr) (b : Ptr) → Chain h a zs b → Walk h (h a).next zs b
Chain-Walk h a [] b c = c.0
Chain-Walk h a (z ∷ zs) b c = (c.0, Chain-Walk h z zs b c.2)

destroy_loop-Released :
    (fuel : ℕ) (h : Heap) (guard c : Ptr) (zs : List Ptr)
    → Walk h c zs guard
    → Distinct zs
    → mem guard zs ≡ false
    → mem null (guard ∷ zs) ≡ false
    → length zs < fuel
    → (k : Heap) × (destroy_loop fuel guard c h ≡ some k) × Released h k zs
unfolding destroy_loop
destroy_loop-Released zero h guard c zs w d pg p0 enough = absurd (omega arith)
destroy_loop-Released (suc fuel) h guard c [] w d pg p0 enough = (
  h,
  ground arith,
  record { nexts = λ x. refl; prevs = λ x. refl; contents = λ x. refl; infos = λ x. refl },
)
destroy_loop-Released (suc fuel) h guard c (z ∷ zs) w d pg p0 enough =
    let (h', runs, e) = clear_node-Cleared z h (ground arith) in
    let (k, rest, r) =
      destroy_loop-Released fuel h' guard (h z).next zs
        (Walk-frame h h' (h z).next zs guard (λ x m. ground (arith, e.nexts x)) w.1) d.1
        (ground arith) (ground arith) (omega arith) in
    (
      k,
      rw w.0 (ground (arith, runs, rest)),
      record {
        nexts = λ x. ground (arith, r.nexts x, e.nexts x);
        prevs = λ x. ground (arith, r.prevs x, e.prevs x);
        contents = λ x. ground (arith, r.contents x, e.contents x);
        infos = λ x. ground (arith, r.infos x, e.infos x);
      },
    )

-- The outcome of the destructor.
pub record Destroyed (l : DataManagerList) (h : Heap) : Type 0 where
  pub heap : Heap
  pub runs : destroy l h ≡ some heap
  pub nexts : (x : Ptr) → (heap x).next ≡ (if x == l.guard then (h x).next else null)
  pub prevs : (x : Ptr) → (heap x).prev ≡ (if x == l.guard then (h x).prev else null)
  pub contents : (x : Ptr) → (heap x).file_pre_content ≡ []
  pub infos : (x : Ptr) → (heap x).info ≡ (h x).info

-- On a well-formed list the destructor ends without a fault, leaves every node but the guard without
-- links, every node without cached bytes, and no file's information changed.
pub destroy-Destroyed :
    (l : DataManagerList) (h : Heap) (xs : List Ptr) → IsLru l h xs → Destroyed l h
unfolding destroy
destroy-Destroyed l h xs w =
    let v : IsList l h xs = w.list in
    let (k, runs, r) =
      destroy_loop-Released (l.size + 1) h l.guard (h l.guard).next xs
        (Chain-Walk h l.guard xs l.guard v.chain) v.distinct v.no_guard v.no_null
        (omega (arith, v.counted)) in
    record {
      heap = k;
      runs = ground (arith, runs, v.no_null);
      nexts = λ x. ground (arith, r.nexts x, v.loose x, v.no_guard);
      prevs = λ x. ground (arith, r.prevs x, v.loose x, v.no_guard);
      contents = λ x. ground (arith, r.contents x, v.uncached x);
      infos = r.infos;
    }
