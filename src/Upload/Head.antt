-- ===== src/Upload/Head.antt =====
-- HTTPconnection.hpp, process_upload_body: a round without a file at hand.
use cloud_backup_system.Common.{
  ◌+◌, ◌*◌, ◌-◌, ◌<◌, ◌≤◌, ◌≡◌, refl, true, false, List, ◌++◌, arith, Bytes, bytes_eq_refl, ℤ,
  length, drop, inl, inr, Bool-cases, Option-cases, ◌∙◌,
}
use cloud_backup_system.Node.{Ptr}
use cloud_backup_system.Path.{is_empty, check_filename}
use cloud_backup_system.FileUtil.{FileSystem}
use cloud_backup_system.DataManager.{Settings, register}
use cloud_backup_system.DataManager.Inv.{Status, absent, registered, uploaded, status}
use cloud_backup_system.DataManager.Register.{is_absent, is_uploaded, register-Registered}
use cloud_backup_system.DataManager.Cache.{Cache}
use cloud_backup_system.Upload.{Parse, find, sep, head_filename, open_file, read_head, is_long}
use cloud_backup_system.Upload.Find.{length-drop, find_within}
use cloud_backup_system.Upload.Inv.{Ok, left, after, goes_on, all_uploaded_same, all_uploaded_stays}

absent_not_uploaded : (s : Status) → is_absent s ≡ true → is_uploaded s ≡ false
absent_not_uploaded absent h = refl
absent_not_uploaded registered h = cc
absent_not_uploaded (uploaded i) h = cc

module _ (fs : FileSystem) (c : Settings) (now : fs.World → ℤ) (xs : List Ptr)
    (cached : Cache) where
  open fs use {World}

  -- A name that is opened is registered or has failed.
  open_file-Ok :
      (name : Bytes) (p : Parse fs)
      → Ok fs xs cached p
      → Ok fs xs cached (after (open_file fs c now name p))
  unfolding open_file
  open_file-Ok name p v = elim (Bool-cases (check_filename name)) [
    | inr bad ↦
        rw (bad, open_file)
          (record { valid = v.valid; held = refl; done = v.done; cache = v.cache })
    | inl good ↦
        let r = register-Registered fs c p.manager xs name p.world v.valid in
        elim (Bool-cases (register fs c name p.manager p.world).0) [
          | inr failed ↦
              rw (good, open_file, failed)
                (record {
                  valid = r.valid;
                  held = refl;
                  done =
                      all_uploaded_same p.manager _ p.info.upload_success_files
                        (λ g. r.statuses g ∙ rw failed)
                      ∙ v.done;
                  cache = r.cache ∙ v.cache;
                })
          | inl done ↦
              let free : is_absent (status p.manager name) ≡ true = ground (arith, r.done) in
              rw (good, open_file, done)
                (record {
                  valid = r.valid;
                  held = ground (arith, r.statuses name, bytes_eq_refl name);
                  done =
                      all_uploaded_stays p.manager _ name p.info.upload_success_files
                        (absent_not_uploaded (status p.manager name) free)
                        (λ g other. r.statuses g ∙ rw (done, other)) v.done;
                  cache = r.cache ∙ v.cache;
                })
        ]
  ]

  -- What a round leaves of the body, where it goes on.
  open_file-left :
      (name : Bytes) (p : Parse fs)
      → (goes_on (open_file fs c now name p) ≡ true)
        × (left (after (open_file fs c now name p)).info ≤ 2 * length p.info.request_body + 1)
  unfolding open_file
  open_file-left name p = (refl, ground arith)

  -- The round keeps what holds between the rounds.
  pub read_head-Ok :
      (p : Parse fs)
      → is_empty p.info.cur_upload_file ≡ true
      → Ok fs xs cached p
      → Ok fs xs cached (after (read_head fs c now p))
  unfolding read_head
  read_head-Ok p none_open v = elim (Option-cases (find p.info.body_boundary p.info.request_body)) [
    | inl e ↦
        rw (e, read_head)
          (record { valid = v.valid; held = v.held; done = v.done; cache = v.cache })
    | inr (at, e) ↦
        let body = drop at p.info.request_body in
        elim (Option-cases (find (sep ++ sep) body)) [
          | inl f ↦
              rw (e, read_head, f)
                (record { valid = v.valid; held = v.held; done = v.done; cache = v.cache })
          | inr (end, f) ↦ elim (Option-cases (head_filename end body)) [
            | inl g ↦
                rw (e, read_head, f, g)
                  (record { valid = v.valid; held = v.held; done = v.done; cache = v.cache })
            | inr (name, g) ↦
                rw (e, read_head, f, g)
                  (open_file-Ok name _
                    (record { valid = v.valid; held = v.held; done = v.done; cache = v.cache }))
          ]
        ]
  ]

  -- The round takes something off, where it goes on.
  pub read_head-left :
      (p : Parse fs)
      → is_empty p.info.cur_upload_file ≡ true
      → is_long p.info ≡ true
      → goes_on (read_head fs c now p) ≡ true
      → left (after (read_head fs c now p)).info < left p.info
  unfolding read_head
  read_head-left p none_open long =
      let size = length p.info.request_body in
      let keep = length p.info.body_boundary in
      elim (Option-cases (find p.info.body_boundary p.info.request_body)) [
        | inl e ↦
            rw (e, read_head) (λ go. ground (arith, length-drop (size - keep) p.info.request_body))
        | inr (at, e) ↦
            let body = drop at p.info.request_body in
            elim (Option-cases (find (sep ++ sep) body)) [
              | inl f ↦ rw (e, read_head, f) (λ go. cc)
              | inr (end, f) ↦ elim (Option-cases (head_filename end body)) [
                | inl g ↦ rw (e, read_head, f, g) (λ go. cc)
                | inr (name, g) ↦
                    let rest = drop (end + 4) body in
                    let opened =
                      open_file-left name
                        (record p { info = record p.info { request_body = rest } }) in
                    rw (e, read_head, f, g)
                      (λ go. omega (
                        arith,
                        opened.1,
                        length-drop (end + 4) body,
                        length-drop at p.info.request_body,
                        find_within (sep ++ sep) body end f,
                      ))
              ]
            ]
      ]
