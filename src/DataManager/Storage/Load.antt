-- ===== src/DataManager/Storage/Load.antt =====
-- data_manager.hpp, LoadFromFile: the items of the file, and the manager before they are read.
use cloud_backup_system.Common.{
  ◌+◌, ◌^◌, ◌<◌, ◌≡◌, ◌≢◌, refl, false, ◌&&◌, some, List, [], ◌∷◌, arith, Bytes, bytes_eq,
  if◌then◌else◌, inl, inr, Bool-cases, ap, ◌∙◌,
}
use mathlib.Core.Bool.{false≢true}
use cloud_backup_system.Node.{BackupInfoNode, Ptr, null, Heap, update}
use cloud_backup_system.DataManager.{DataManager, Settings, lookup-insert, add_node}
use cloud_backup_system.DataManager.Inv.{Inv, Status, uploaded, status}
use cloud_backup_system.Lru.Lifetime.{IsBlank, Started, init-Started}
use cloud_backup_system.DataManager.Insert.{add_node-Inv, old_status, blank_node}
use cloud_backup_system.DataManager.Storage.{is_sound, load_item, load_items, empty_manager}

-- The status of `g` after the items are loaded, from its status before: the last sound item with
-- its name counts.
abbrev pub loaded : Bytes → List BackupInfoNode → Status → Status
loaded g [] s = s
loaded g (i ∷ is) s = loaded g is (if is_sound i && bytes_eq i.filename g then uploaded i else s)

pub load_item-Inv : (i : BackupInfoNode) (d : DataManager) → Inv d [] → Inv (load_item i d) []
unfolding load_item add_node
load_item-Inv i d v = elim (Bool-cases (is_sound i)) [
  | inl s ↦ rw s (add_node-Inv d [] i d.is_dirty v (λ q m. absurd (false≢true m)))
  | inr s ↦ rw s v
]

status-load_item :
    (i : BackupInfoNode) (d : DataManager) (g : Bytes)
    → Inv d []
    → status (load_item i d) g
      ≡ (if is_sound i && bytes_eq i.filename g then uploaded i else status d g)
unfolding load_item add_node status update
status-load_item i d g v = elim (Bool-cases (is_sound i)) [
  | inr s ↦ rw s
  | inl s ↦ elim (Bool-cases (bytes_eq i.filename g)) [
    | inl same ↦
        rw (s, lookup-insert i.filename g d.next_node d.hash, same) (ground (arith, v.guard_old))
    | inr other ↦
        rw (s, lookup-insert i.filename g d.next_node d.hash, other)
          (old_status d [] g (blank_node i) v)
  ]
]

-- Loading keeps a manager with an empty cache well formed.
pub load_items-Inv :
    (is : List BackupInfoNode) (d : DataManager) → Inv d [] → Inv (load_items is d) []
unfolding load_items
load_items-Inv [] d v = v
load_items-Inv (i ∷ is) d v = load_items-Inv is (load_item i d) (load_item-Inv i d v)

-- The last sound item of a name decides the name's status.
pub status-load_items :
    (is : List BackupInfoNode) (d : DataManager) (g : Bytes)
    → Inv d []
    → status (load_items is d) g ≡ loaded g is (status d g)
unfolding load_items
status-load_items [] d g v = refl
status-load_items (i ∷ is) d g v =
    status-load_items is (load_item i d) g (load_item-Inv i d v)
    ∙ ap (loaded g is) (status-load_item i d g v)

-- The manager before the loading of its file.
pub record Made (c : Settings) (guard : Ptr) (h : Heap) : Type 0 where
  pub state : DataManager
  pub runs : empty_manager c guard h ≡ some state
  pub valid : Inv state []
  pub empty : state.hash ≡ []

-- In a store in which no node has links or cached bytes the constructor, given an address that is
-- not null and a capacity below 2 ^ 32, goes to the loading of the file with a well-formed manager
-- whose table and cache are empty.
pub empty_manager-Made :
    (c : Settings) (guard : Ptr) (h : Heap)
    → guard ≢ null
    → c.lru_file_capacity < 2 ^ 32
    → IsBlank h
    → Made c guard h
unfolding empty_manager
empty_manager-Made c guard h g0 small b =
    let s : Started guard c.lru_file_capacity h =
      init-Started guard c.lru_file_capacity h g0 small b in
    record {
      state = record {
        hash = [];
        heap = s.heap;
        list = s.list;
        is_dirty = false;
        next_node = guard + 1;
      };
      runs = rw s.runs;
      valid = record {
        lru = s.valid;
        unique = tt;
        guard_old = omega (arith, s.guarded);
        live = λ g p e. cc;
        listed = λ q m. cc;
      };
      empty = refl;
    }
