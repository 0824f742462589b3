-- ===== src/Upload/Content.antt =====
-- HTTPconnection.hpp, process_upload_body: a round with a file at hand.
use cloud_backup_system.Common.{
  ℕ, ◌+◌, ◌*◌, ◌-◌, ◌<◌, ◌≤◌, ◌≡◌, refl, Bool, true, false, Option, none, some, List, ◌++◌, arith,
  bytes_eq_refl, ℤ, length, ◌∙◌,
}
use cloud_backup_system.Node.{Ptr}
use cloud_backup_system.Path.{is_empty}
use cloud_backup_system.FileUtil.{FileSystem, append_content}
use cloud_backup_system.FileUtil
use cloud_backup_system.DataManager.{Settings, insert_file, target_file}
use cloud_backup_system.DataManager.Inv.{status}
use cloud_backup_system.DataManager.Insert.{is_registered, insert_file-Inserted}
use cloud_backup_system.DataManager.Register.{is_uploaded, deregister-Deregistered}
use cloud_backup_system.DataManager.Cache.{Cache}
use cloud_backup_system.Upload.{
  Parse, find, sep, fail_file, finish_file, file_content, settle, read_content, is_long,
}
use cloud_backup_system.Upload.Find.{length-drop, length-take}
use cloud_backup_system.Upload.Inv.{
  Ok, left, after, all_uploaded-append, all_uploaded_stays, registered_not_uploaded,
}

module _ (fs : FileSystem) (c : Settings) (now : fs.World → ℤ) (xs : List Ptr)
    (cached : Cache) where
  open fs use {World}

  fail_file-Ok :
      (p : Parse fs)
      → is_empty p.info.cur_upload_file ≡ false
      → Ok fs xs cached p
      → Ok fs xs cached (after (fail_file fs c now p))
  unfolding fail_file
  fail_file-Ok p full v =
      let name = p.info.cur_upload_file in
      let no : is_uploaded (status p.manager name) ≡ false =
        registered_not_uploaded (status p.manager name) (ground (arith, v.held)) in
      let r = deregister-Deregistered fs c p.manager xs name p.world v.valid no in
      record {
        valid = r.valid;
        held = refl;
        done =
            all_uploaded_stays p.manager _ name p.info.upload_success_files no
              (λ g other. r.statuses g ∙ rw other) v.done;
        cache = r.cache ∙ v.cache;
      }

  finish_file-Ok :
      (p : Parse fs)
      → is_empty p.info.cur_upload_file ≡ false
      → Ok fs xs cached p
      → Ok fs xs cached (after (finish_file fs c now p))
  unfolding finish_file
  finish_file-Ok p full v =
      let name = p.info.cur_upload_file in
      let held : is_registered (status p.manager name) ≡ true = ground (arith, v.held) in
      let no : is_uploaded (status p.manager name) ≡ false =
        registered_not_uploaded (status p.manager name) held in
      let size = FileUtil.get_file_size fs (target_file c name) p.world in
      let r = insert_file-Inserted p.manager xs name size (now p.world) v.valid in
      let d = (insert_file name size (now p.world) p.manager).1 in
      let still =
        all_uploaded_stays p.manager d name p.info.upload_success_files no
          (λ g other. r.statuses g ∙ rw (other, r.done, held)) v.done in
      let here : is_uploaded (status d name) ≡ true =
        rw (r.statuses name, r.done, held, bytes_eq_refl name) in
      record {
        valid = r.valid;
        held = refl;
        done = rw (all_uploaded-append d p.info.upload_success_files name, still, here);
        cache = r.cache ∙ v.cache;
      }

  settle-Ok :
      (written : Bool) (end : Option ℕ) (p : Parse fs)
      → is_empty p.info.cur_upload_file ≡ false
      → Ok fs xs cached p
      → Ok fs xs cached (after (settle fs c now written end p))
  unfolding settle
  settle-Ok false end p full v = fail_file-Ok p full v
  settle-Ok true none p full v = v
  settle-Ok true (some at) p full v = finish_file-Ok p full v

  -- The round keeps what holds between the rounds.
  pub read_content-Ok :
      (p : Parse fs)
      → is_empty p.info.cur_upload_file ≡ false
      → Ok fs xs cached p
      → Ok fs xs cached (after (read_content fs c now p))
  unfolding read_content
  read_content-Ok p full v =
      settle-Ok _ _ _ full
        (record { valid = v.valid; held = v.held; done = v.done; cache = v.cache })

  -- What is taken off, where nothing but a part of the body was written.
  settle-left :
      (written : Bool) (end : Option ℕ) (p : Parse fs) (size : ℕ)
      → is_empty p.info.cur_upload_file ≡ false
      → length p.info.request_body ≤ size
      → (end ≡ none → length p.info.request_body < size)
      → left (after (settle fs c now written end p)).info < 2 * size + 1
  unfolding settle fail_file finish_file
  settle-left false end p size full le lt = omega (arith, le)
  settle-left true none p size full le lt = rw full (omega (arith, lt refl))
  settle-left true (some at) p size full le lt = omega (arith, le)

  -- The round takes something off.
  pub read_content-left :
      (p : Parse fs)
      → is_empty p.info.cur_upload_file ≡ false
      → is_long p.info ≡ true
      → left (after (read_content fs c now p)).info < left p.info
  unfolding read_content
  read_content-left p full long =
      let body = p.info.request_body in
      let end = find (sep ++ p.info.body_boundary) body in
      let content = file_content p.info end in
      rw full (
        settle-left _ end _ (length body) full (omega (arith, length-drop (length content) body))
          (λ e. rw e (
            ground (
              arith,
              length-drop (length (file_content p.info none)) body,
              length-take (length body - length p.info.body_boundary - 2) body,
            ))))
