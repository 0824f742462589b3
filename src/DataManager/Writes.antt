-- ===== src/DataManager/Writes.antt =====
-- data_manager.hpp, PutFilePreContent, against the write of the cache of DataManager/Cache.
use cloud_backup_system.Common.{
  Bool, ℕ, zero, suc, ◌≡◌, refl, true, false, none, some, List, [], ◌∷◌, arith, Bytes,
  if◌then◌else◌, inl, inr, Bool-cases, ap, ap₂, ◌∙◌, sym, take,
}
use cloud_backup_system.Node.{Ptr, Heap}
use cloud_backup_system.Lru.Chain.{mem}
use cloud_backup_system.Lru.Inv.{IsLru, erase, mem-erase}
use cloud_backup_system.Lru.Moves.{Removed, detach-Removed}
use cloud_backup_system.Lru.Touch.{Touched, move_to_head-Touched}
use cloud_backup_system.Lru.Push.{Pushed, push_to_head-Pushed}
use cloud_backup_system.DataManager.{
  DataManager, Settings, lookup, is_valid_file, node_of, put_file_pre_content, shorten,
}
use cloud_backup_system.DataManager.Cache.{
  Only, find, put, view, find-view, drop_name-view, view-same, view-take,
}
use cloud_backup_system.DataManager.Inv.{
  Inv, status, valid_node, Inv-relist, Inv-Only, status-same, touched-listed,
}
use cloud_backup_system.Node.{update}
use cloud_backup_system.Lru.Spec.{admit}

mem-take : (q : Ptr) (n : ℕ) (xs : List Ptr) → mem q (take n xs) ≡ true → mem q xs ≡ true
mem-take q zero xs h = cc
mem-take q (suc n) [] h = cc
mem-take q (suc n) (x ∷ xs) h = ground (arith, mem-take q n xs)

-- The outcome of a write of `content` under `name`.
pub record Written (c : Settings) (d : DataManager) (xs : List Ptr) (name content : Bytes)
    : Type 0 where
  pub state : DataManager
  pub nodes : List Ptr
  pub runs : put_file_pre_content c name content d ≡ some (is_valid_file d name, state)
  pub valid : Inv state nodes
  pub cache : view state.heap nodes ≡ (
      if is_valid_file d name
      then put d.list.capacity name (shorten c.lru_file_content_size content) (view d.heap xs)
      else view d.heap xs)
  pub statuses : (g : Bytes) → status state g ≡ status d g

module _ (c : Settings) (d : DataManager) (xs : List Ptr) (name content : Bytes)
    (v : Inv d xs) where
  write_invalid : is_valid_file d name ≡ false → Written c d xs name content
  unfolding put_file_pre_content
  write_invalid bad = record {
    state = d;
    nodes = xs;
    runs = rw bad;
    valid = v;
    cache = rw bad;
    statuses = λ g. refl;
  }

  -- A write of a file that is in the cache.
  write_hit :
      is_valid_file d name ≡ true → mem (node_of d name) xs ≡ true → Written c d xs name content
  unfolding put_file_pre_content status
  write_hit ok m =
      let p = node_of d name in
      let (e, p0, old, ng, named) = valid_node d xs name v ok in
      let o : Only d.heap name p xs = Inv-Only d xs name p v e p0 in
      let r : Removed d.list d.heap p xs = detach-Removed d.list d.heap p xs v.lru.list m in
      let t : Touched d.list d.heap p xs = move_to_head-Touched d.list d.heap p xs v.lru ng in
      let found : find name (view d.heap xs) ≡ some (d.heap p).file_pre_content =
        find-view d.heap name p xs o ∙ rw m in
      let moved : IsLru d.list t.heap (p ∷ erase p xs) = rw m at t.valid in
      record {
        state = record d { heap = t.heap };
        nodes = p ∷ erase p xs;
        runs = ground (arith, r.linked.next, r.linked.prev, t.runs);
        valid = Inv-relist d xs (p ∷ erase p xs) d.list t.heap v moved refl t.same.infos (λ q h.
            touched-listed d xs name p v e p0 q
              (ground (arith, mem-erase q p xs v.lru.list.distinct)));
        cache =
            rw (ok, found, put)
              (ap₂ ◌∷◌ (rw (t.same.infos p, t.same.contents p, named)) (
                view-same d.heap t.heap (erase p xs) (λ q h. rw (t.same.infos q, t.same.contents q))
                ∙ sym (drop_name-view d.heap name p xs o)));
        statuses = λ g. status-same d.heap t.heap (lookup g d.hash) t.same.infos;
      }

  -- A write of a file that is not in the cache yet.
  write_miss :
      is_valid_file d name ≡ true → mem (node_of d name) xs ≡ false → Written c d xs name content
  unfolding put_file_pre_content status update
  write_miss ok out =
      let p = node_of d name in
      let bytes = shorten c.lru_file_content_size content in
      let (e, p0, old, ng, named) = valid_node d xs name v ok in
      let loose = v.lru.list.loose p (ground arith) in
      let t : Pushed d.list d.heap p bytes xs =
        push_to_head-Pushed d.list d.heap p bytes xs v.lru ng in
      let missing : find name (view d.heap xs) ≡ none =
        find-view d.heap name p xs (Inv-Only d xs name p v e p0) ∙ rw out in
      let nodes = take d.list.capacity (p ∷ xs) in
      let same : admit d.list.capacity p xs ≡ nodes = ground arith in
      let stored : Heap = update d.heap p (record (d.heap p) { file_pre_content = bytes }) in
      record {
        state = record d { list = t.list; heap = t.heap };
        nodes = nodes;
        runs = ground (arith, loose, t.runs);
        valid =
            Inv-relist d xs nodes t.list t.heap v (rw same at t.valid) t.guard t.infos
              (λ q h. touched-listed d xs name p v e p0 q (mem-take q d.list.capacity (p ∷ xs) h));
        cache =
            rw (ok, missing, put)
              (view-same stored t.heap nodes
                  (λ q h. ground (arith, t.infos q, t.contents q, ap (mem q) same))
                ∙ (view-take stored d.list.capacity (p ∷ xs)
                    ∙ ap (take d.list.capacity) (
                        ap₂ ◌∷◌ (ground (arith, named))
                          (view-same d.heap stored xs (λ q h. ground arith)))));
        statuses = λ g. status-same d.heap t.heap (lookup g d.hash) t.infos;
      }

  -- On a well-formed manager a write does what the cache's write does, for a file that is uploaded,
  -- with the bytes cut to the configured size; it changes no cached bytes for any other name. It
  -- runs without a fault, reports which of the two was the case, and changes no file's status.
  pub put_refines : Written c d xs name content
  put_refines = elim (Bool-cases (is_valid_file d name)) [
    | inr bad ↦ write_invalid bad
    | inl ok ↦ elim (Bool-cases (mem (node_of d name) xs)) [
      | inl m ↦ write_hit ok m
      | inr out ↦ write_miss ok out
    ]
  ]

-- A write leaves the table as it is.
pub put-hash :
    (c : Settings) (d d' : DataManager) (name content : Bytes) (done : Bool)
    → put_file_pre_content c name content d ≡ some (done, d')
    → d'.hash ≡ d.hash
unfolding put_file_pre_content
put-hash c d d' name content done h = ground (arith, h)
