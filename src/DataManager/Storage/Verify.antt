-- ===== src/DataManager/Storage/Verify.antt =====
-- data_manager.hpp, VerifyFileLegality: the table against the files of the backup directory.
use cloud_backup_system.Common.{
  ◌≡◌, refl, Bool, true, not, ◌&&◌, some, List, [], ◌∷◌, arith, Bytes, bytes_eq, bytes_eq_iff,
  bytes_eq→eq, if◌then◌else◌, inl, inr, Bool-cases, Option-cases, ap, ◌∙◌, is_some,
}
use mathlib.Core.Bool.{false≢true}
use cloud_backup_system.Node.{Ptr}
use cloud_backup_system.Path.{file_path, get_file_name}
use cloud_backup_system.FileUtil.{FileSystem, scan_directory, remove_regular_file}
use cloud_backup_system.DataManager.{
  DataManager, Settings, lookup, erase, lookup-erase, Unique-erase,
}
use cloud_backup_system.DataManager.Inv.{Inv, absent, status, Inv-rehash, Inv-dirty}
use cloud_backup_system.DataManager.Storage.{
  has_name, missing, erase_names, sift_files, verify_file_legality,
}

erase_names-Inv : (ks : List Bytes) (d : DataManager) → Inv d [] → Inv (erase_names ks d) []
unfolding erase_names
erase_names-Inv [] d v = v
erase_names-Inv (k ∷ ks) d v =
    erase_names-Inv ks (record d { hash = erase k d.hash; is_dirty = true })
      (Inv-dirty (record d { hash = erase k d.hash }) [] true
        (Inv-rehash d [] (erase k d.hash) v (Unique-erase k d.hash v.unique)
          (λ g p e p0. ground (arith, lookup-erase k g d.hash)) (λ q m. absurd (false≢true m))))

status-erase_names :
    (ks : List Bytes) (d : DataManager) (g : Bytes)
    → status (erase_names ks d) g ≡ (if has_name g ks then absent else status d g)
unfolding erase_names status
status-erase_names [] d g = refl
status-erase_names (k ∷ ks) d g =
    status-erase_names ks (record d { hash = erase k d.hash; is_dirty = true }) g
    ∙ ground (arith, lookup-erase k g d.hash)

has_name-missing :
    (names : List Bytes) (g : Bytes) (m : List (Bytes × Ptr))
    → has_name g (missing names m) ≡ (is_some (lookup g m) && not (has_name g names))
has_name-missing names g [] = refl
has_name-missing names g ((k, p) ∷ m) = elim (Bool-cases (bytes_eq k g)) [
  | inl same ↦
      rw (same, bytes_eq→eq k g same) (ground (arith, has_name-missing names g m, bytes_eq_iff g g))
  | inr other ↦ rw other (ground (arith, has_name-missing names g m))
]

-- The names of the files of a directory.
abbrev pub file_names : List Bytes → List Bytes
file_names [] = []
file_names (f ∷ fs) = get_file_name f ∷ file_names fs

sift_step :
    (known listed : Bool) (j g : Bytes) (names all : List Bytes)
    → has_name g names ≡ (has_name g all && listed)
    → (bytes_eq j g ≡ true → known ≡ listed)
    → has_name g (if known then j ∷ names else names) ≡ (has_name g (j ∷ all) && listed)
sift_step known listed j g names all e same = ground arith

-- The names that go are those of the table that no file has.
kept_status :
    (d : DataManager) (g : Bytes) (gone in_names in_files : Bool)
    → gone ≡ (is_some (lookup g d.hash) && not in_names)
    → in_names ≡ (in_files && is_some (lookup g d.hash))
    → (if gone then absent else status d g) ≡ (if in_files then status d g else absent)
unfolding status
kept_status d g gone in_names in_files p q = elim (Option-cases (lookup g d.hash)) [
  | inl e ↦ rw e (ground arith)
  | inr (n, e) ↦ ground arith
]

module _ (fs : FileSystem) (d : DataManager) where
  open fs use {World}

  has_name-sift_files :
      (files : List Bytes) (w : World) (g : Bytes)
      → has_name g (sift_files fs d files w).0
        ≡ (has_name g (file_names files) && is_some (lookup g d.hash))
  unfolding sift_files
  has_name-sift_files [] w g = refl
  has_name-sift_files (f ∷ files) w g =
      let known = is_some (lookup (get_file_name f) d.hash) in
      let w' = if known then w else (remove_regular_file fs f w).1 in
      sift_step known (is_some (lookup g d.hash)) (get_file_name f) g (sift_files fs d files w').0
        (file_names files) (has_name-sift_files files w' g)
        (λ e. ap (λ k. is_some (lookup k d.hash)) (bytes_eq→eq (get_file_name f) g e))

  -- The outcome of the check, for the directory's files.
  pub record Verified (c : Settings) (w : World) (files : List Bytes) : Type 0 where
    pub valid : Inv (verify_file_legality fs c d w).0 []
    pub statuses :
        (g : Bytes)
        → status (verify_file_legality fs c d w).0 g
          ≡ (if has_name g (file_names files) then status d g else absent)

  -- For a well-formed manager with an empty cache, if the backup directory can be read, then after
  -- the check every name that is the name of one of its regular files has the status that it had,
  -- and every other name is absent. The manager stays well formed.
  pub verify_file_legality-Verified :
      (c : Settings) (w : World) (files : List Bytes)
      → Inv d []
      → scan_directory fs c.env (file_path c.env c.backup_file_dir) w ≡ some files
      → Verified c w files
  unfolding verify_file_legality
  verify_file_legality-Verified c w files v e =
      let names = (sift_files fs d files w).0 in
      record {
        valid = rw (e, verify_file_legality) (erase_names-Inv (missing names d.hash) d v);
        statuses = λ g.
            rw (e, verify_file_legality)
              (status-erase_names (missing names d.hash) d g
                ∙ kept_status d g (has_name g (missing names d.hash)) (has_name g names)
                    (has_name g (file_names files)) (has_name-missing names g d.hash)
                    (has_name-sift_files files w g));
      }
