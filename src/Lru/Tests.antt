-- ===== src/Lru/Tests.antt =====
-- A list of two nodes with the guard 1, and runs on it.
use cloud_backup_system.Common.{refl, [], ◌∷◌, arith, bytes, pos, ◌==◌, if◌then◌else◌}
use cloud_backup_system.Node.{Ptr, Heap, DataManagerNode}
use cloud_backup_system.Lru.{DataManagerList}
use cloud_backup_system.Lru.Inv.{IsLru}
use cloud_backup_system.Lru.Push.{Pushed, push_to_head-Pushed}
use cloud_backup_system.Lru.Lifetime.{IsBlank, Destroyed, destroy-Destroyed}

abbrev unused : Ptr → Ptr → DataManagerNode
unused n p = record {
  info = record { filename = []; size = pos 0; time = pos 0 };
  file_pre_content = [];
  next = n;
  prev = p;
}

abbrev fresh : Heap
fresh p = unused 0 0

fresh-IsBlank : IsBlank fresh
fresh-IsBlank = record { nexts = λ x. refl; prevs = λ x. refl; contents = λ x. refl }

abbrev two : DataManagerList
two = record { size = 2; capacity = 2; guard = 1 }

-- The guard, then the node 3, then the node 2.
abbrev linked : Heap
linked p =
    if p == 1
    then unused 3 2
    else if p == 3
    then unused 2 1
    else if p == 2
    then unused 1 3
    else unused 0 0

linked-IsLru : IsLru two linked (3 ∷ 2 ∷ [])
linked-IsLru = record {
  list = record {
    chain = ground arith;
    distinct = ground arith;
    no_guard = refl;
    no_null = refl;
    counted = refl;
    loose = λ x m. ground arith;
    uncached = λ x m. ground arith;
  };
  bounded = omega arith;
  small = omega arith;
}

-- A third node comes in, and the node 2 goes.
push_to_head-Pushed_example : Pushed two linked 4 (bytes "x") (3 ∷ 2 ∷ [])
push_to_head-Pushed_example =
    push_to_head-Pushed two linked 4 (bytes "x") (3 ∷ 2 ∷ []) linked-IsLru (ground arith)

destroy-Destroyed_example : Destroyed two linked
destroy-Destroyed_example = destroy-Destroyed two linked (3 ∷ 2 ∷ []) linked-IsLru
