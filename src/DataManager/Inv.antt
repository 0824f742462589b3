-- ===== src/DataManager/Inv.antt =====
-- The invariant of the manager, and the abstract view of its table.
use cloud_backup_system.Common.{
  ◌<◌, ◌≡◌, ◌≢◌, refl, Bool, true, false, Option, none, some, List, ◌∷◌, arith, Bytes, bytes_eq,
  ◌==◌, if◌then◌else◌, Option-cases, ◌⊎◌, inl, inr, Bool-cases, ap, ◌∙◌, bytes_eq_refl, bytes_eq→eq,
}
use cloud_backup_system.Node.{BackupInfoNode, Ptr, null, Heap}
use cloud_backup_system.Lru.Chain.{mem}
use cloud_backup_system.Lru.Inv.{IsLru}
use cloud_backup_system.Lru.{DataManagerList}
use cloud_backup_system.DataManager.Cache.{Only}
use cloud_backup_system.DataManager.{DataManager, lookup, Unique, is_valid_file, node_of}

-- `xs` are the nodes of the cache. The nodes of the table are live, hold the information of their
-- own file, and only they are in the cache.
pub record Inv (d : DataManager) (xs : List Ptr) : Type 0 where
  pub lru : IsLru d.list d.heap xs
  pub unique : Unique d.hash
  pub guard_old : d.list.guard < d.next_node
  pub live :
      (name : Bytes) (p : Ptr)
      → lookup name d.hash ≡ some p
      → p ≢ null
      → (p < d.next_node) × (p ≢ d.list.guard) × ((d.heap p).info.filename ≡ name)
  pub listed : (p : Ptr) → mem p xs ≡ true → lookup (d.heap p).info.filename d.hash ≡ some p

-- What a client can know of a name.
pub data Status : Type 0 where
  absent : Status
  registered : Status
  uploaded : BackupInfoNode → Status

abbrev pub status_of : Heap → Option Ptr → Status
status_of h none = absent
status_of h (some p) = if p == null then registered else uploaded (h p).info

unfoldable pub status : DataManager → Bytes → Status
status d name = status_of d.heap (lookup name d.hash)

-- The node of a valid file.
pub valid_node :
    (d : DataManager) (xs : List Ptr) (name : Bytes)
    → Inv d xs
    → is_valid_file d name ≡ true
    → (lookup name d.hash ≡ some (node_of d name))
      × (node_of d name ≢ null)
      × (node_of d name < d.next_node)
      × (node_of d name ≢ d.list.guard)
      × ((d.heap (node_of d name)).info.filename ≡ name)
valid_node d xs name v ok = elim (Option-cases (lookup name d.hash)) [
  | inl e ↦ absurd (ground arith)
  | inr (p, e) ↦ ground (arith, v.live name p)
]

-- A change of the list and the store that keeps the files' information keeps the invariant.
pub Inv-relist :
    (d : DataManager) (xs ys : List Ptr) (l : DataManagerList) (k : Heap)
    → Inv d xs
    → IsLru l k ys
    → l.guard ≡ d.list.guard
    → ((q : Ptr) → (k q).info ≡ (d.heap q).info)
    → ((q : Ptr) → mem q ys ≡ true → lookup (d.heap q).info.filename d.hash ≡ some q)
    → Inv (record d { list = l; heap = k }) ys
Inv-relist d xs ys l k v lru guard infos listed = record {
  lru = lru;
  unique = v.unique;
  guard_old = rw guard v.guard_old;
  live = λ name p e p0.
      let (old, apart, named) = v.live name p e p0 in
      (old, rw guard apart, ap (λ (i : BackupInfoNode). i.filename) (infos p) ∙ named);
  listed = λ q m. rw (infos q) (listed q m);
}

-- A node of the cache is the one that the table has under its name.
pub Inv-Only :
    (d : DataManager) (xs : List Ptr) (name : Bytes) (p : Ptr)
    → Inv d xs
    → lookup name d.hash ≡ some p
    → p ≢ null
    → Only d.heap name p xs
Inv-Only d xs name p v e p0 q m = elim (Bool-cases (q == p)) [
  | inl same ↦
      let eq : q ≡ p = ground arith in rw (same, eq, (v.live name p e p0).2) (bytes_eq_refl name)
  | inr other ↦ elim (Bool-cases (bytes_eq (d.heap q).info.filename name)) [
    | inl named ↦
        let at : (d.heap q).info.filename ≡ name = bytes_eq→eq _ _ named in
        let here : lookup name d.hash ≡ some q = rw (← at) (v.listed q m) in ground (arith, here, e)
    | inr unnamed ↦ rw (unnamed, other)
  ]
]

-- No node of the cache is null.
pub Inv-ne_null :
    (d : DataManager) (xs : List Ptr) (q : Ptr) → Inv d xs → mem q xs ≡ true → q ≢ null
Inv-ne_null d xs q v m = ground (arith, v.lru.list.no_null)

-- The status of a name depends on the table and on the nodes' information only.
pub status-same :
    (h k : Heap) (o : Option Ptr)
    → ((q : Ptr) → (k q).info ≡ (h q).info)
    → status_of k o ≡ status_of h o
status-same h k none infos = refl
status-same h k (some p) infos = rw (infos p)

-- The nodes of a list with `p` in front are still those of the table.
pub touched-listed :
    (d : DataManager) (xs : List Ptr) (name : Bytes) (p : Ptr)
    → Inv d xs
    → lookup name d.hash ≡ some p
    → p ≢ null
    → (q : Ptr) → mem q (p ∷ xs) ≡ true
    → lookup (d.heap q).info.filename d.hash ≡ some q
touched-listed d xs name p v e p0 q m = elim (Bool-cases (q == p)) [
  | inl same ↦ let eq : q ≡ p = ground arith in rw (eq, (v.live name p e p0).2) e
  | inr other ↦ v.listed q (ground arith)
]

-- A cached node has another name than one that is absent or only registered.
pub named_apart :
    (d : DataManager) (xs : List Ptr) (name : Bytes) (q : Ptr)
    → Inv d xs
    → (lookup name d.hash ≡ none) ⊎ (lookup name d.hash ≡ some null)
    → mem q xs ≡ true
    → bytes_eq name (d.heap q).info.filename ≡ false
named_apart d xs name q v e m = elim (Bool-cases (bytes_eq name (d.heap q).info.filename)) [
  | inr other ↦ other
  | inl same ↦
      let at : name ≡ (d.heap q).info.filename = bytes_eq→eq _ _ same in
      let here : lookup name d.hash ≡ some q = rw at (v.listed q m) in
      absurd (ground (arith, here, Inv-ne_null d xs q v m))
]

-- A change of the table alone that leaves the entries of live nodes keeps the invariant.
pub Inv-rehash :
    (d : DataManager) (xs : List Ptr) (m : List (Bytes × Ptr))
    → Inv d xs
    → Unique m
    → ((g : Bytes) (p : Ptr) → lookup g m ≡ some p → p ≢ null → lookup g d.hash ≡ some p)
    → ((q : Ptr) → mem q xs ≡ true → lookup (d.heap q).info.filename m ≡ some q)
    → Inv (record d { hash = m }) xs
Inv-rehash d xs m v u old kept = record {
  lru = v.lru;
  unique = u;
  guard_old = v.guard_old;
  live = λ g p e p0. v.live g p (old g p e p0) p0;
  listed = kept;
}

pub Inv-dirty :
    (d : DataManager) (xs : List Ptr) (b : Bool) → Inv d xs → Inv (record d { is_dirty = b }) xs
Inv-dirty d xs b v = record {
  lru = v.lru;
  unique = v.unique;
  guard_old = v.guard_old;
  live = v.live;
  listed = v.listed;
}
