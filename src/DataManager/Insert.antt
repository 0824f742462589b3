-- ===== src/DataManager/Insert.antt =====
-- data_manager.hpp, Insert: the end of an upload.
use cloud_backup_system.Common.{
  ◌≡◌, refl, Bool, true, false, ◌&&◌, some, List, [], ◌∷◌, arith, Bytes, bytes_eq, bytes_eq_iff,
  ◌==◌, if◌then◌else◌, inl, inr, Bool-cases, Option-cases, sym, ℤ,
}
use cloud_backup_system.Node.{Ptr, null, Heap, BackupInfoNode, DataManagerNode, update}
use cloud_backup_system.Lru.{DataManagerList}
use cloud_backup_system.Lru.Chain.{mem, Chain-frame, mem-append}
use cloud_backup_system.Lru.Inv.{IsList, IsLru}
use cloud_backup_system.DataManager.{
  DataManager, Unique-insert, lookup, lookup-insert, insert_file, add_node,
}
use cloud_backup_system.DataManager.Cache.{view, view-same}
use cloud_backup_system.DataManager.Inv.{
  named_apart, Inv, Status, registered, uploaded, status, status_of, Inv-ne_null,
}

abbrev pub blank_node : BackupInfoNode → DataManagerNode
blank_node info = record { info = info; file_pre_content = []; next = null; prev = null }

-- A new node outside the list leaves the list well formed.
IsLru-alloc :
    (l : DataManagerList) (h : Heap) (xs : List Ptr) (n : Ptr) (info : BackupInfoNode)
    → IsLru l h xs
    → mem n (l.guard ∷ xs) ≡ false
    → IsLru l (update h n (blank_node info)) xs
unfolding update
IsLru-alloc l h xs n info w out =
    let v : IsList l h xs = w.list in
    record {
      list = record {
        chain =
            Chain-frame h (update h n (blank_node info)) l.guard xs l.guard (λ x m. ground arith)
              (λ x m. ground (arith, mem-append x xs (l.guard ∷ []))) v.chain;
        distinct = v.distinct;
        no_guard = v.no_guard;
        no_null = v.no_null;
        counted = v.counted;
        loose = λ x m. ground (arith, v.loose x);
        uncached = λ x m. ground (arith, v.uncached x);
      };
      bounded = w.bounded;
      small = w.small;
    }

-- The next node is not in use.
pub next_node-fresh :
    (d : DataManager) (xs : List Ptr) → Inv d xs → mem d.next_node (d.list.guard ∷ xs) ≡ false
next_node-fresh d xs v = elim (Bool-cases (mem d.next_node xs)) [
  | inr out ↦ ground (arith, v.guard_old)
  | inl m ↦ absurd (
      omega (
        arith,
        (v.live _ d.next_node (v.listed d.next_node m) (Inv-ne_null d xs d.next_node v m)).0,
      ))
]

-- A node made under a name that no cached node has keeps the invariant.
pub add_node-Inv :
    (d : DataManager) (xs : List Ptr) (info : BackupInfoNode) (dirty : Bool)
    → Inv d xs
    → ((q : Ptr) → mem q xs ≡ true → bytes_eq info.filename (d.heap q).info.filename ≡ false)
    → Inv (record (add_node info d) { is_dirty = dirty }) xs
unfolding add_node update
add_node-Inv d xs info dirty v apart =
    let n = d.next_node in
    let fresh : mem n (d.list.guard ∷ xs) ≡ false = next_node-fresh d xs v in
    record {
      lru = IsLru-alloc d.list d.heap xs n info v.lru fresh;
      unique = Unique-insert info.filename n d.hash v.unique;
      guard_old = omega (arith, v.guard_old);
      live = λ name p at p0. ground (
        arith,
        lookup-insert info.filename name n d.hash,
        bytes_eq_iff info.filename name,
        v.guard_old,
        v.live name p,
      );
      listed = λ q m.
          let key = (d.heap q).info.filename in
          let other : bytes_eq info.filename key ≡ false = apart q m in
          let old : (q == n) ≡ false = ground arith in
          rw (old, lookup-insert info.filename key n d.hash, other) (v.listed q m);
    }

abbrev pub is_registered : Status → Bool
is_registered registered = true
is_registered _ = false

-- The information that `Insert` stores.
abbrev pub new_info : Bytes → ℤ → ℤ → BackupInfoNode
new_info name size now = record { filename = name; size = size; time = now }

-- The outcome of `Insert`.
pub record Inserted (d : DataManager) (xs : List Ptr) (name : Bytes) (size now : ℤ)
    (r : Bool × DataManager) : Type 0 where
  pub done : r.0 ≡ is_registered (status d name)
  pub valid : Inv r.1 xs
  pub statuses :
      (g : Bytes)
      → status r.1 g
        ≡ (if r.0 && bytes_eq name g then uploaded (new_info name size now) else status d g)
  pub cache : view r.1.heap xs ≡ view d.heap xs
  pub dirty : r.1.is_dirty ≡ (if r.0 then true else d.is_dirty)

insert_refused :
    (d : DataManager) (xs : List Ptr) (name : Bytes) (size now : ℤ)
    → Inv d xs
    → is_registered (status d name) ≡ false
    → Inserted d xs name size now (false, d)
insert_refused d xs name size now v e = record {
  done = sym e;
  valid = v;
  statuses = λ g. refl;
  cache = refl;
  dirty = refl;
}

-- The status of the other names is not touched by a new node.
pub old_status :
    (d : DataManager) (xs : List Ptr) (g : Bytes) (n : DataManagerNode)
    → Inv d xs
    → status_of (update d.heap d.next_node n) (lookup g d.hash) ≡ status d g
unfolding status update
old_status d xs g n v = elim (Option-cases (lookup g d.hash)) [
  | inl e ↦ rw e
  | inr (p, e) ↦ rw e (ground (arith, v.live g p))
]

insert_accepted :
    (d : DataManager) (xs : List Ptr) (name : Bytes) (size now : ℤ)
    → Inv d xs
    → lookup name d.hash ≡ some null
    → Inserted d xs name size now
        (true, record (add_node (new_info name size now) d) { is_dirty = true })
unfolding add_node status update
insert_accepted d xs name size now v e = record {
  done = rw e;
  valid =
      add_node-Inv d xs (new_info name size now) true v
        (λ q m. named_apart d xs name q v (inr e) m);
  statuses = λ g. elim (Bool-cases (bytes_eq name g)) [
    | inl same ↦ rw (lookup-insert name g d.next_node d.hash, same) (ground (arith, v.guard_old))
    | inr other ↦
        rw (lookup-insert name g d.next_node d.hash, other)
          (old_status d xs g (blank_node (new_info name size now)) v)
  ];
  cache =
      view-same d.heap (update d.heap d.next_node (blank_node (new_info name size now))) xs
        (λ q m. ground (arith, next_node-fresh d xs v));
  dirty = refl;
}

-- On a well-formed manager `Insert` succeeds for the registered names and no others. It makes such a
-- name an uploaded file of the given size and time, and marks the table for storage. Every other
-- name and the cache stay, and so does all where it fails; the manager stays well formed.
pub insert_file-Inserted :
    (d : DataManager) (xs : List Ptr) (name : Bytes) (size now : ℤ)
    → Inv d xs
    → Inserted d xs name size now (insert_file name size now d)
unfolding insert_file status
insert_file-Inserted d xs name size now v = elim (Option-cases (lookup name d.hash)) [
  | inl e ↦ rw (e, insert_file) (insert_refused d xs name size now v (rw e))
  | inr (p, e) ↦ elim (Bool-cases (p == null)) [
    | inl z ↦
        let p0 : p ≡ null = ground arith in
        rw (e, insert_file, z) (insert_accepted d xs name size now v (rw (← p0) e))
    | inr nz ↦ rw (e, insert_file, nz) (insert_refused d xs name size now v (rw (e, nz)))
  ]
]
