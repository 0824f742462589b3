-- ===== src/DataManager/Register.antt =====
-- data_manager.hpp, Register and Deregister: the start of an upload, and one that is given up.
use cloud_backup_system.Common.{
  ◌≡◌, refl, Bool, true, false, ◌&&◌, none, some, List, arith, Bytes, bytes_eq, if◌then◌else◌, inl,
  inr, ◌⊎◌, Option-cases, Bool-cases, sym,
}
use cloud_backup_system.Node.{Ptr, null}
use cloud_backup_system.DataManager.{DataManager, Settings, lookup}
use cloud_backup_system.DataManager.Cache.{view}
use cloud_backup_system.DataManager.Inv.{Inv, status}
use cloud_backup_system.FileUtil.{FileSystem}
use cloud_backup_system.Path.{check_filename}
use cloud_backup_system.DataManager.{
  register, deregister, prepare_file, remove_target, target_file, insert, erase, lookup-insert,
  lookup-erase, Unique-insert, Unique-erase,
}
use cloud_backup_system.DataManager.Inv.{
  Status, absent, registered, uploaded, named_apart, Inv-rehash,
}

abbrev pub is_absent : Status → Bool
is_absent absent = true
is_absent _ = false

abbrev pub is_uploaded : Status → Bool
is_uploaded (uploaded i) = true
is_uploaded _ = false

module _ (fs : FileSystem) (c : Settings) (d : DataManager) (xs : List Ptr) (name : Bytes) where
  open fs use {World}

  -- The outcome of `Register`.
  pub record Registered (w : World) (r : Bool × DataManager × World) : Type 0 where
    pub done : r.0 ≡ (
        is_absent (status d name)
        && check_filename name
        && (prepare_file fs (target_file c name) w).0)
    pub valid : Inv r.1 xs
    pub statuses :
        (g : Bytes) → status r.1 g ≡ (if r.0 && bytes_eq name g then registered else status d g)
    pub cache : view r.1.heap xs ≡ view d.heap xs
    pub disk : r.2 ≡ (
        if is_absent (status d name) && check_filename name
        then (prepare_file fs (target_file c name) w).1
        else w)

  register_refused :
      (w : World)
      → Inv d xs
      → (is_absent (status d name) && check_filename name) ≡ false
      → Registered w (false, d, w)
  register_refused w v e = record {
    done = ground arith;
    valid = v;
    statuses = λ g. refl;
    cache = refl;
    disk = rw e;
  }

  -- The name is free and the file was tried; `done` says whether that worked.
  register_tried :
      (w : World)
      → Inv d xs
      → lookup name d.hash ≡ none
      → check_filename name ≡ true
      → (done : Bool) → done ≡ (prepare_file fs (target_file c name) w).0
      → Registered w (
        done,
        (if done then record d { hash = insert name null d.hash } else d),
        (prepare_file fs (target_file c name) w).1,
      )
  unfolding status
  register_tried w v e ok true done = record {
    done = rw (e, ok) done;
    valid =
        Inv-rehash d xs (insert name null d.hash) v (Unique-insert name null d.hash v.unique)
          (λ g p at p0. ground (arith, lookup-insert name g null d.hash))
          (λ q m.
            rw
              (
                lookup-insert name (d.heap q).info.filename null d.hash,
                named_apart d xs name q v (inl e) m,
              )
              (v.listed q m));
    statuses = λ g. ground (arith, lookup-insert name g null d.hash);
    cache = refl;
    disk = rw (e, ok);
  }
  register_tried w v e ok false done = record {
    done = rw (e, ok) done;
    valid = v;
    statuses = λ g. refl;
    cache = refl;
    disk = rw (e, ok);
  }

  -- On a well-formed manager `Register` succeeds for a name that is in no entry, is a file name, and
  -- whose file could be made or emptied. The name is then registered. Every other name and the cache
  -- stay, and so does the table where it fails; the disk is not touched unless the name is free and
  -- is a file name. The manager stays well formed.
  pub register-Registered : (w : World) → Inv d xs → Registered w (register fs c name d w)
  unfolding register status
  register-Registered w v = elim (Option-cases (lookup name d.hash)) [
    | inr (p, e) ↦ rw (e, register) (register_refused w v (ground arith))
    | inl e ↦ elim (Bool-cases (check_filename name)) [
      | inr bad ↦ rw (e, register, bad) (register_refused w v (ground arith))
      | inl ok ↦ elim (Bool-cases (prepare_file fs (target_file c name) w).0) [
        | inl done ↦ rw (e, register, ok, done) (register_tried w v e ok true (sym done))
        | inr failed ↦ rw (e, register, ok, failed) (register_tried w v e ok false (sym failed))
      ]
    ]
  ]

  -- The outcome of `Deregister`.
  pub record Deregistered (w : World) (r : Bool × DataManager × World) : Type 0 where
    pub done : r.0 ≡ (remove_target fs (target_file c name) w).0
    pub valid : Inv r.1 xs
    pub statuses : (g : Bytes) → status r.1 g ≡ (if bytes_eq name g then absent else status d g)
    pub cache : view r.1.heap xs ≡ view d.heap xs
    pub disk : r.2 ≡ (remove_target fs (target_file c name) w).1

  pub deregister-Deregistered :
      (w : World)
      → Inv d xs
      → is_uploaded (status d name) ≡ false
      → Deregistered w (deregister fs c name d w)
  unfolding deregister status
  deregister-Deregistered w v e = record {
    done = refl;
    valid =
        Inv-rehash d xs (erase name d.hash) v (Unique-erase name d.hash v.unique)
          (λ g p at p0. ground (arith, lookup-erase name g d.hash))
          (λ q m.
            rw
              (
                lookup-erase name (d.heap q).info.filename d.hash,
                named_apart d xs name q v not_uploaded m,
              )
              (v.listed q m));
    statuses = λ g. ground (arith, lookup-erase name g d.hash);
    cache = refl;
    disk = refl;
  }
    where
      not_uploaded : (lookup name d.hash ≡ none) ⊎ (lookup name d.hash ≡ some null)
      not_uploaded = elim (Option-cases (lookup name d.hash)) [
        | inl a ↦ inl a
        | inr (p, a) ↦ inr (ground arith)
      ]
