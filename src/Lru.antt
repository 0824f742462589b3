-- ===== src/Lru.antt =====
-- data_manager.hpp, lines 38 to 120: the doubly linked list with a guard node that keeps the files
-- whose first bytes are cached, the most recently used first.
pub mod Chain
pub mod Writes
pub mod Inv
pub mod Moves
pub mod Remove
pub mod Spec
pub mod Touch
pub mod Tail
pub mod Push
pub mod Lifetime
mod Tests
use cloud_backup_system.Common.{
  ℕ, zero, suc, ◌+◌, ◌-◌, ◌%◌, ◌^◌, Bool, true, false, not, ◌||◌, Option, none, some, ◌>>=◌, Bytes,
  [], ◌==◌, ltb, if◌then◌else◌,
}
use cloud_backup_system.Node.{
  Ptr, null, DataManagerNode, Heap, update, load, set_next, set_prev, set_content,
}

pub record DataManagerList : Type 0 where
  pub size : ℕ
  pub capacity : ℕ
  pub guard : Ptr

-- The cached bytes and both links of a node are dropped.
unfoldable pub clear_node : Ptr → Heap → Option Heap
unfolding set_next set_prev set_content
clear_node node h = do h1 ← set_content node [] h; h2 ← set_prev node null h1; set_next node null h2

-- The constructor: `guard` is the address of the new guard node, linked to itself.
pub init : Ptr → ℕ → Heap → Option (DataManagerList × Heap)
unfolding set_prev set_next
init guard capacity h = do
  h1 ← set_prev guard guard h
  h2 ← set_next guard guard h1
  some (record { size = 0; capacity = capacity; guard = guard }, h2)

-- The loop of the destructor, from the node `current` on. It is given `size + 1` rounds.
pub destroy_loop : ℕ → Ptr → Ptr → Heap → Option Heap
unfolding load
destroy_loop zero guard current h = none
destroy_loop (suc fuel) guard current h =
    if current == guard
    then some h
    else do n ← load current h; h' ← clear_node current h; destroy_loop fuel guard n.next h'

pub destroy : DataManagerList → Heap → Option Heap
unfolding load
destroy l h = do g ← load l.guard h; destroy_loop (l.size + 1) l.guard g.next h

-- The two writes that take a node out of its place.
unfoldable pub detach : Ptr → Heap → Option Heap
unfolding load set_next set_prev
detach node h = do
  n ← load node h
  h' ← set_next n.prev n.next h
  m ← load node h'
  set_prev m.next m.prev h'

-- The four writes that put a node behind the guard.
unfoldable pub insert_head : Ptr → Ptr → Heap → Option Heap
unfolding load set_next set_prev
insert_head guard node h = do
  g ← load guard h
  h1 ← set_next node g.next h
  h2 ← set_prev node guard h1
  g2 ← load guard h2
  h3 ← set_prev g2.next node h2
  set_next guard node h3

-- Whether one of the node's links is null, read after the test for a null node.
abbrev pub unlinked : Ptr → Heap → Bool
unlinked node h = (h node).next == null || (h node).prev == null

pub move_to_head : DataManagerList → Ptr → Heap → Option (Bool × Heap)
move_to_head l node h =
    if node == null || unlinked node h
    then some (false, h)
    else do h1 ← detach node h; h2 ← insert_head l.guard node h1; some (true, h2)

-- The size is a `size_t`.
pub remove : DataManagerList → Ptr → Heap → Option (Bool × DataManagerList × Heap)
remove l node h =
    if node == null then some (false, l, h) else if unlinked node h then some (true, l, h) else do
      h1 ← detach node h
      h2 ← clear_node node h1
      some (true, record l { size = (l.size + 2 ^ 64 - 1) % 2 ^ 64 }, h2)

pub remove_tail : DataManagerList → Heap → Option (Bool × DataManagerList × Heap)
unfolding load
remove_tail l h = do
  g ← load l.guard h
  if g.prev == l.guard then some (false, l, h) else remove l g.prev h

-- The value of `++_size > _capacity` decides whether the tail goes.
trim : DataManagerList → Heap → Option (Bool × DataManagerList × Heap)
trim l h =
    if ltb l.capacity l.size
    then (do (_, l', h') ← remove_tail l h; some (true, l', h'))
    else some (true, l, h)

pub push_to_head : DataManagerList → Ptr → Bytes → Heap → Option (Bool × DataManagerList × Heap)
unfolding trim
push_to_head l node content h =
    if node == null || not ((h node).next == null) || not ((h node).prev == null)
    then some (false, l, h)
    else do
      h1 ← set_content node content h
      h2 ← insert_head l.guard node h1
      trim (record l { size = (l.size + 1) % 2 ^ 64 }) h2
