-- ===== src/Node.antt =====
-- data_manager.hpp, lines 12 to 31: the nodes that the file table and the LRU list share, and the
-- store that holds them. A pointer is an address; a read or a write through null is a fault, `none`.
-- Nodes are counted references in the program, so no address is ever used twice here.
use cloud_backup_system.Common.{ℕ, Bytes, ℤ, Option, none, some, ◌==◌, if◌then◌else◌}

pub record BackupInfoNode : Type 0 where
  pub filename : Bytes
  pub size : ℤ
  pub time : ℤ

abbrev pub Ptr : Type 0
Ptr = ℕ

abbrev pub null : Ptr
null = 0

pub record DataManagerNode : Type 0 where
  pub info : BackupInfoNode
  pub file_pre_content : Bytes
  pub next : Ptr
  pub prev : Ptr

abbrev pub Heap : Type 0
Heap = Ptr → DataManagerNode

unfoldable pub update : Heap → Ptr → DataManagerNode → Heap
update h p n q = if q == p then n else h q

unfoldable pub load : Ptr → Heap → Option DataManagerNode
load p h = if p == null then none else some (h p)

unfoldable pub set_next : Ptr → Ptr → Heap → Option Heap
set_next p q h = if p == null then none else some (update h p (record (h p) { next = q }))

unfoldable pub set_prev : Ptr → Ptr → Heap → Option Heap
set_prev p q h = if p == null then none else some (update h p (record (h p) { prev = q }))

unfoldable pub set_content : Ptr → Bytes → Heap → Option Heap
set_content p c h =
    if p == null then none else some (update h p (record (h p) { file_pre_content = c }))
