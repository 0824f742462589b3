-- ===== src/Lru/Moves.antt =====
-- A node taken out of a well-formed list, and a node put behind its guard.
use cloud_backup_system.Common.{
  ◌≡◌, ◌≢◌, true, false, some, List, [], ◌∷◌, ◌++◌, arith, sym, ap, subst, ◌∙◌,
}
use cloud_backup_system.Node.{Ptr, null, Heap}
use cloud_backup_system.Lru.{DataManagerList, detach, insert_head}
use cloud_backup_system.Lru.Chain.{
  mem, Distinct, Chain, mem-append, next-mem_after, Chain-detach, Chain-insert, Detached, Inserted,
}
use cloud_backup_system.Lru.Writes.{SameData, detach-Detached, insert_head-Inserted}
use cloud_backup_system.Lru.Inv.{
  IsList, erase, Place, place, Linked, IsList-Linked, Inside, Chain-Inside,
}

-- The outcome of taking the node `n` of `xs` out.
pub record Removed (l : DataManagerList) (h : Heap) (n : Ptr) (xs : List Ptr) : Type 0 where
  pub heap : Heap
  pub runs : detach n h ≡ some heap
  pub chain : Chain heap l.guard (erase n xs) l.guard
  pub detached : Detached h heap n
  pub same : SameData h heap
  pub linked : Linked h n
  pub inside : Inside h l.guard n xs

cleared_link :
    (l : DataManagerList) (h : Heap) (n : Ptr) (us vs : List Ptr)
    → IsList l h (us ++ n ∷ vs)
    → erase n (us ++ n ∷ vs) ≡ us ++ vs
    → Removed l h n (us ++ n ∷ vs)
cleared_link l h n us vs v e =
    let k : Linked h n = IsList-Linked l h n us vs v in
    let (h', runs, d, same) = detach-Detached n h k.self k.prev k.next k.apart in
    record {
      heap = h';
      runs = runs;
      chain =
          rw e
            (Chain-detach h h' n l.guard us vs l.guard d v.chain v.distinct v.no_guard v.no_guard);
      detached = d;
      same = same;
      linked = k;
      inside = Chain-Inside h l.guard n us vs v.chain;
    }

pub detach-Removed :
    (l : DataManagerList) (h : Heap) (n : Ptr) (xs : List Ptr)
    → IsList l h xs
    → mem n xs ≡ true
    → Removed l h n xs
detach-Removed l h n xs v m =
    let p : Place n xs = place n xs m in
    subst (Removed l h n) (sym p.whole) (
      cleared_link l h n p.before p.after (subst (IsList l h) p.whole v)
        (ap (erase n) (sym p.whole) ∙ p.rest))

-- The outcome of putting the node `n` in front of `zs`.
pub record Added (guard : Ptr) (h : Heap) (n : Ptr) (zs : List Ptr) : Type 0 where
  pub heap : Heap
  pub runs : insert_head guard n h ≡ some heap
  pub chain : Chain heap guard (n ∷ zs) guard
  pub inserted : Inserted h heap n guard
  pub same : SameData h heap
  pub first : mem (h guard).next (guard ∷ zs) ≡ true

pub insert_head-Added :
    (guard : Ptr) (h : Heap) (n : Ptr) (zs : List Ptr)
    → Chain h guard zs guard
    → Distinct zs
    → mem guard zs ≡ false
    → mem null (guard ∷ zs) ≡ false
    → n ≢ null
    → mem n (guard ∷ zs) ≡ false
    → Added guard h n zs
insert_head-Added guard h n zs c d pg p0 n0 pn =
    let q = (h guard).next in
    let first : mem q (guard ∷ zs) ≡ true =
      ground (arith, next-mem_after h guard zs guard c, mem-append q zs (guard ∷ [])) in
    let (h', runs, i, same) =
      insert_head-Inserted guard n h (ground arith) n0 (ground arith) (ground arith)
        (ground arith) in
    record {
      heap = h';
      runs = runs;
      chain = Chain-insert h h' n guard zs guard i c d pg pg (ground arith);
      inserted = i;
      same = same;
      first = first;
    }
