-- ===== src/Lru/Spec.antt =====
-- The list without its pointers: the nodes in order, the most recently used first.
use cloud_backup_system.Common.{ℕ, ◌||◌, List, ◌∷◌, ◌==◌, if◌then◌else◌, take}
use cloud_backup_system.Node.{Ptr, null}
use cloud_backup_system.Lru.Chain.{mem}
use cloud_backup_system.Lru.Inv.{erase}

-- A node that is in the list moves to its front.
abbrev pub touch : Ptr → List Ptr → List Ptr
touch n xs = if mem n xs then n ∷ erase n xs else xs

-- A node that is not comes in at the front, and what is over the capacity falls off the end.
abbrev pub admit : ℕ → Ptr → List Ptr → List Ptr
admit capacity n xs = if n == null || mem n xs then xs else take capacity (n ∷ xs)
