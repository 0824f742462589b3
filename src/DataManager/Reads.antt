-- ===== src/DataManager/Reads.antt =====
-- data_manager.hpp, GetFilePreContent, against the read of the cache of DataManager/Cache.
use cloud_backup_system.Common.{
  ◌≡◌, refl, true, false, not, ◌||◌, none, some, List, [], ◌∷◌, arith, Bytes, bytes_eq, inl, inr,
  Bool-cases, ap₂, ◌∙◌, sym, bytes_eq→eq,
}
use cloud_backup_system.Node.{Ptr, Heap}
use cloud_backup_system.Lru.{unlinked}
use cloud_backup_system.Lru.Chain.{mem}
use cloud_backup_system.Lru.Inv.{IsLru, erase, mem-erase}
use cloud_backup_system.Lru.Moves.{Removed, detach-Removed}
use cloud_backup_system.Lru.Touch.{Touched, move_to_head-Touched}
use cloud_backup_system.DataManager.{
  DataManager, lookup, is_valid_file, node_of, get_file_pre_content,
}
use cloud_backup_system.DataManager.Cache.{
  Only, find, get, view, find-view, drop_name-view, view-same,
}
use cloud_backup_system.DataManager.Inv.{
  Inv, status, valid_node, Inv-relist, Inv-Only, Inv-ne_null, status-same, touched-listed,
}

-- A list that holds the node of no such name.
find-none :
    (h : Heap) (name : Bytes) (xs : List Ptr)
    → ((q : Ptr) → mem q xs ≡ true → bytes_eq (h q).info.filename name ≡ false)
    → find name (view h xs) ≡ none
find-none h name [] o = refl
find-none h name (q ∷ xs) o = ground (arith, o q, find-none h name xs (λ r m. o r (ground arith)))

-- The name of a cached node is the name of a valid file.
pub find-invalid :
    (d : DataManager) (xs : List Ptr) (name : Bytes)
    → Inv d xs
    → is_valid_file d name ≡ false
    → find name (view d.heap xs) ≡ none
find-invalid d xs name v bad = find-none d.heap name xs λ q m.
    elim (Bool-cases (bytes_eq (d.heap q).info.filename name)) [
      | inl named ↦
          let at : (d.heap q).info.filename ≡ name = bytes_eq→eq _ _ named in
          let here : lookup name d.hash ≡ some q = rw (← at) (v.listed q m) in
          absurd (ground (arith, here, Inv-ne_null d xs q v m))
      | inr unnamed ↦ unnamed
    ]

-- The outcome of a read of `name`.
pub record Read (d : DataManager) (xs : List Ptr) (name : Bytes) : Type 0 where
  pub state : DataManager
  pub nodes : List Ptr
  pub runs : get_file_pre_content name d ≡ some ((get name (view d.heap xs)).0, state)
  pub valid : Inv state nodes
  pub cache : view state.heap nodes ≡ (get name (view d.heap xs)).1
  pub statuses : (g : Bytes) → status state g ≡ status d g

-- A read that finds nothing.
miss :
    (d : DataManager) (xs : List Ptr) (name : Bytes)
    → Inv d xs
    → (not (is_valid_file d name) || unlinked (node_of d name) d.heap) ≡ true
    → find name (view d.heap xs) ≡ none
    → Read d xs name
unfolding get_file_pre_content
miss d xs name v e f = record {
  state = d;
  nodes = xs;
  runs = rw (e, f, get);
  valid = v;
  cache = rw (f, get);
  statuses = λ g. refl;
}

-- A read that finds the node `p` in the cache.
hit :
    (d : DataManager) (xs : List Ptr) (name : Bytes)
    → Inv d xs
    → is_valid_file d name ≡ true
    → mem (node_of d name) xs ≡ true
    → Read d xs name
unfolding get_file_pre_content status
hit d xs name v ok m =
    let p = node_of d name in
    let (e, p0, old, ng, named) = valid_node d xs name v ok in
    let o : Only d.heap name p xs = Inv-Only d xs name p v e p0 in
    let r : Removed d.list d.heap p xs = detach-Removed d.list d.heap p xs v.lru.list m in
    let t : Touched d.list d.heap p xs = move_to_head-Touched d.list d.heap p xs v.lru ng in
    let found : find name (view d.heap xs) ≡ some (d.heap p).file_pre_content =
      find-view d.heap name p xs o ∙ rw m in
    let moved : IsLru d.list t.heap (p ∷ erase p xs) = rw m at t.valid in
    record {
      state = record d { heap = t.heap };
      nodes = p ∷ erase p xs;
      runs =
          let here : (t.heap p).file_pre_content ≡ (d.heap p).file_pre_content =
            t.same.contents p in
          ground (arith, found, r.linked.next, r.linked.prev, t.runs, here);
      valid = Inv-relist d xs (p ∷ erase p xs) d.list t.heap v moved refl t.same.infos (λ q h.
          touched-listed d xs name p v e p0 q
            (ground (arith, mem-erase q p xs v.lru.list.distinct)));
      cache =
          rw (found, get)
            (ap₂ ◌∷◌ (rw (t.same.infos p, t.same.contents p, named)) (
              view-same d.heap t.heap (erase p xs) (λ q h. rw (t.same.infos q, t.same.contents q))
              ∙ sym (drop_name-view d.heap name p xs o)));
      statuses = λ g. status-same d.heap t.heap (lookup g d.hash) t.same.infos;
    }

-- On a well-formed manager a read gives what the cache gives: the bytes of a cached file, which
-- becomes the most recent one, and the empty text for any other name. It runs without a fault, and
-- changes no file's status.
pub get_refines : (d : DataManager) (xs : List Ptr) (name : Bytes) → Inv d xs → Read d xs name
get_refines d xs name v = elim (Bool-cases (is_valid_file d name)) [
  | inr bad ↦ miss d xs name v (rw bad) (find-invalid d xs name v bad)
  | inl ok ↦ elim (Bool-cases (mem (node_of d name) xs)) [
    | inl m ↦ hit d xs name v ok m
    | inr out ↦
        let (e, p0, old, ng, named) = valid_node d xs name v ok in
        miss d xs name v (ground (arith, v.lru.list.loose (node_of d name)))
          (find-view d.heap name (node_of d name) xs (Inv-Only d xs name _ v e p0) ∙ rw out)
  ]
]

-- A read leaves the table as it is.
pub get-hash :
    (d d' : DataManager) (name content : Bytes)
    → get_file_pre_content name d ≡ some (content, d')
    → d'.hash ≡ d.hash
unfolding get_file_pre_content
get-hash d d' name content h = ground (arith, h)
