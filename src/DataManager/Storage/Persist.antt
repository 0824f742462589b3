-- ===== src/DataManager/Storage/Persist.antt =====
-- data_manager.hpp, FileStorageThread and LoadFromFile: a store of the table and a start from it.
use cloud_backup_system.Common.{
  ◌≡◌, ◌≢◌, refl, Bool, false, not, ◌&&◌, Option, none, some, List, [], ◌∷◌, arith, Bytes, bytes_eq,
  bytes_eq_refl, bytes_eq_iff, bytes_eq→eq, ◌==◌, if◌then◌else◌, inl, inr, Bool-cases, ap, ◌∙◌,
}
use cloud_backup_system.Node.{BackupInfoNode, Ptr, null, Heap}
use cloud_backup_system.Path.{file_path, is_empty}
use cloud_backup_system.FileUtil.{FileSystem, get_content, uint32_max}
use cloud_backup_system.DataManager.{DataManager, Settings, lookup, Unique, is_valid_file}
use cloud_backup_system.DataManager.Inv.{
  Inv, Status, absent, registered, uploaded, status, status_of,
}
use cloud_backup_system.DataManager.Storage.{
  Json, is_sound, valid_infos, load_items, load_from_file, store_round,
}
use cloud_backup_system.DataManager.Storage.Load.{loaded, load_items-Inv, status-load_items}

-- What is left of a name's status after a restart: a file that was only registered is forgotten, and
-- so is one whose size could not be read.
abbrev pub surviving : Status → Status
surviving absent = absent
surviving registered = absent
surviving (uploaded i) = if is_sound i then uploaded i else absent

-- The same, from the entry of a table.
abbrev survives_as : Heap → Option Ptr → Status → Status
survives_as h none s = s
survives_as h (some p) s = if not (p == null) && is_sound (h p).info then uploaded (h p).info else s

survives-surviving :
    (h : Heap) (o : Option Ptr) → survives_as h o absent ≡ surviving (status_of h o)
survives-surviving h none = refl
survives-surviving h (some p) = ground arith

-- One entry of the table, and what the entries behind it give.
loaded-entry :
    (h : Heap) (g k : Bytes) (p : Ptr) (m : List (Bytes × Ptr)) (tail : List BackupInfoNode)
    (s : Status)
    → lookup k m ≡ none
    → (p ≢ null → (h p).info.filename ≡ k)
    → ((t : Status) → loaded g tail t ≡ survives_as h (lookup g m) t)
    → loaded g (if not (p == null) then (h p).info ∷ tail else tail) s
      ≡ survives_as h (lookup g ((k, p) ∷ m)) s
loaded-entry h g k p m tail s once named rest = elim (Bool-cases (bytes_eq k g)) [
  | inl same ↦
      let gone : lookup g m ≡ none = rw (← bytes_eq→eq k g same) once in
      elim (Bool-cases (p == null)) [
        | inl z ↦ rw (z, same) (rest s ∙ rw (gone, z))
        | inr nz ↦
            let at : (h p).info.filename ≡ k = named (ground arith) in
            rw (nz, same, at) (rest _ ∙ rw (gone, same, nz) (ground arith))
      ]
  | inr other ↦ elim (Bool-cases (p == null)) [
    | inl z ↦ rw (z, other) (rest s)
    | inr nz ↦
        let apart : bytes_eq (h p).info.filename g ≡ false = rw (named (ground arith)) other in
        let skip : (if is_sound (h p).info && bytes_eq (h p).info.filename g
              then uploaded (h p).info
              else s)
            ≡ s =
          ground arith in
        rw (nz, other) (ap (loaded g tail) skip ∙ rest s)
  ]
]

loaded-valid_infos :
    (d : DataManager) (xs : List Ptr) (g : Bytes) (m : List (Bytes × Ptr)) (s : Status)
    → Inv d xs
    → Unique m
    → ((k : Bytes) (p : Ptr) → lookup k m ≡ some p → lookup k d.hash ≡ some p)
    → loaded g (valid_infos d m) s ≡ survives_as d.heap (lookup g m) s
loaded-valid_infos d xs g [] s v u sub = refl
loaded-valid_infos d xs g ((k, p) ∷ m) s v u sub =
    let here : lookup k d.hash ≡ some p = sub k p (rw (bytes_eq_refl k)) in
    let rest = λ (t : Status).
      loaded-valid_infos d xs g m t v u.1
        (λ j q e. sub j q (ground (arith, bytes_eq_iff k j, u.0))) in
    let tail = valid_infos d m in
    let valid : is_valid_file d k ≡ not (p == null) = rw (here, is_valid_file) in
    let named : p ≢ null → (d.heap p).info.filename ≡ k = λ p0. (v.live k p here p0).2 in
    ap (λ (b : Bool). loaded g (if b then (d.heap p).info ∷ tail else tail) s) valid
    ∙ loaded-entry (d.heap) g k p m tail s u.0 named rest

module _ (fs : FileSystem) (json : Json) (c : Settings) where
  open fs use {World}

  -- The outcome of loading the file in the disk `w` into the manager `fresh`.
  pub record Restored (d fresh : DataManager) (w : World) : Type 0 where
    pub state : DataManager
    pub runs :
        load_from_file fs json c (file_path c.env c.data_manager_filepath) fresh w ≡ some state
    pub valid : Inv state []
    pub statuses : (g : Bytes) → status state g ≡ surviving (status d g)

  -- If a manager and a fresh one are well formed, the fresh one's table and cache are empty, the text
  -- of the entries is not empty and is read back as those entries, and the disk after one round of
  -- the storing thread gives that text, then a new start loads every uploaded file with its size and
  -- time, and nothing else: a name that was only registered is absent, and so is a file whose name
  -- is empty or whose size is negative. The loaded manager is well formed.
  pub restart_restores :
      (d fresh : DataManager) (xs : List Ptr) (w : World) (text : Bytes)
      → Inv d xs
      → Inv fresh []
      → fresh.hash ≡ []
      → json.serialize (valid_infos d d.hash) ≡ some text
      → json.deserialize text ≡ some (valid_infos d d.hash)
      → is_empty text ≡ false
      → get_content fs
          (file_path c.env c.data_manager_filepath)
          0
          uint32_max
          (store_round fs json c d w).1
        ≡ some text
      → Restored d fresh (store_round fs json c d w).1
  unfolding load_from_file status
  restart_restores d fresh xs w text v vf none_yet out back full reads = record {
    state = load_items (valid_infos d d.hash) fresh;
    runs = rw (reads, full, back);
    valid = load_items-Inv (valid_infos d d.hash) fresh vf;
    statuses = λ g.
        status-load_items (valid_infos d d.hash) fresh g vf
        ∙ (rw none_yet (
            loaded-valid_infos d xs g d.hash absent v v.unique (λ k p e. e)
            ∙ survives-surviving d.heap (lookup g d.hash)));
  }
