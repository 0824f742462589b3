-- ===== src/Upload/Dropped.antt =====
-- HTTPconnection.hpp, the destructor of HTTPMessageInfo: what a connection that ends leaves of an
-- upload.
use cloud_backup_system.Common.{
  some, ℤ, ◌≡◌, refl, ◌∙◌, Bool, true, false, List, Bytes, bytes_eq, bytes_eq_refl, if◌then◌else◌,
  arith, Bool-cases, inl, inr,
}
use cloud_backup_system.Node.{Ptr}
use cloud_backup_system.Path.{is_empty}
use cloud_backup_system.FileUtil.{FileSystem}
use cloud_backup_system.DataManager.{DataManager, Settings, deregister}
use cloud_backup_system.DataManager.Insert.{is_registered}
use cloud_backup_system.DataManager.Cache.{Cache, view}
use cloud_backup_system.DataManager.Inv.{Inv, absent, status}
use cloud_backup_system.DataManager.Register.{is_uploaded, deregister-Deregistered}
use cloud_backup_system.Upload.{HttpMessageInfo, Parse, process_upload_body}
use cloud_backup_system.Upload.Loop.{process_upload_body-Processed}
use cloud_backup_system.Upload.Inv.{Ok}

module _ (fs : FileSystem) (c : Settings) where
  open fs use {World}

  -- `~HTTPMessageInfo`.
  unfoldable pub destruct_info : HttpMessageInfo → DataManager → World → DataManager × World
  unfolding deregister
  destruct_info m d w =
      if is_empty m.cur_upload_file
      then (d, w)
      else let (done, d', w') = deregister fs c m.cur_upload_file d w in (d', w')

  pub record Dropped (xs : List Ptr) (cached : Cache) (p : Parse fs) (r : DataManager × World)
      : Type 0 where
    pub valid : Inv r.0 xs
    pub cache : view r.0.heap xs ≡ cached
    pub gone : is_empty p.info.cur_upload_file ≡ false → status r.0 p.info.cur_upload_file ≡ absent
    pub others :
        (g : Bytes) → bytes_eq p.info.cur_upload_file g ≡ false → status r.0 g ≡ status p.manager g

  -- If the manager is well formed and the file at hand is registered and not uploaded, then the end
  -- of a connection leaves no entry for the file at hand; every other name, the cache and the
  -- well-formedness stay.
  pub destruct_info-Dropped :
      (xs : List Ptr) (cached : Cache) (p : Parse fs)
      → Ok fs xs cached p
      → Dropped xs cached p (destruct_info p.info p.manager p.world)
  unfolding destruct_info
  destruct_info-Dropped xs cached p ok = elim (Bool-cases (is_empty p.info.cur_upload_file)) [
    | inl e ↦
        rw (e, destruct_info)
          (record {
            valid = ok.valid;
            cache = ok.cache;
            gone = λ f. ground (arith, e, f);
            others = λ g _. refl;
          })
    | inr e ↦
        let name = p.info.cur_upload_file in
        let held : is_registered (status p.manager name) ≡ true = rw e at ok.held in
        let not_yet : is_uploaded (status p.manager name) ≡ false = ground (arith, held) in
        let r = deregister-Deregistered fs c p.manager xs name p.world ok.valid not_yet in
        rw (e, destruct_info)
          (record {
            valid = r.valid;
            cache = r.cache ∙ ok.cache;
            gone = λ _. r.statuses name ∙ rw (bytes_eq_refl name) refl;
            others = λ g f. r.statuses g ∙ rw f refl;
          })
  ]

  module _ (now : World → ℤ) where
    -- The outcome of a call of process_upload_body behind which the connection ends.
    pub record Interrupted (xs : List Ptr) (cached : Cache) (p : Parse fs) : Type 0 where
      pub result : Bool
      pub state : Parse fs
      pub runs : process_upload_body fs c now p ≡ some (result, state)
      pub dropped : Dropped xs cached state (destruct_info state.info state.manager state.world)

    -- If the manager is well formed, the file at hand is registered and not uploaded, and the files
    -- reported as done are uploaded, then a connection that ends behind any call of
    -- process_upload_body leaves no entry for the file that is at hand then; every other name is as
    -- the call left it, the cache is not touched, and the manager stays well formed.
    pub process_upload_body-Interrupted :
        (xs : List Ptr) (cached : Cache) (p : Parse fs)
        → Ok fs xs cached p
        → Interrupted xs cached p
    process_upload_body-Interrupted xs cached p ok =
        let r = process_upload_body-Processed fs c now xs cached p ok in
        record {
          result = r.result;
          state = r.state;
          runs = r.runs;
          dropped = destruct_info-Dropped xs cached r.state r.ok;
        }
