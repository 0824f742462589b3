-- ===== src/Request/Body.antt =====
-- HTTPconnection.hpp, on_body and process_delete_request.
use cloud_backup_system.Common.{
  ◌≡◌, ◌&&◌, some, List, ◌++◌, Bytes, bytes, bytes_eq, ℤ, if◌then◌else◌, inl, inr, Bool-cases,
}
use cloud_backup_system.Node.{Ptr}
use cloud_backup_system.Path.{is_empty}
use cloud_backup_system.FileUtil.{FileSystem}
use cloud_backup_system.DataManager.{Settings, is_valid_file, remove_target, target_file}
use cloud_backup_system.DataManager.Inv.{Inv, absent, status}
use cloud_backup_system.DataManager.Cache.{Cache}
use cloud_backup_system.Upload.{Parse}
use cloud_backup_system.Upload.Inv.{Ok}
use cloud_backup_system.Upload.Loop.{Processed, process_upload_body-Processed}
use cloud_backup_system.Request.{on_body, asks, bad_request, process_delete_request}

module _ (fs : FileSystem) (c : Settings) (now : fs.World → ℤ) (xs : List Ptr) where
  open fs use {World}

  -- The outcome of a piece of a body.
  pub record Handled (cached : Cache) (at : Bytes) (p : Parse fs) : Type 0 where
    pub state : Parse fs
    pub runs : on_body fs c now at p ≡ some state
    pub ok : Ok fs xs cached state

  -- If the manager is well formed, the file at hand is registered and not uploaded, and the files
  -- reported as done are uploaded, then the handling of any piece of a body ends, and the same holds
  -- after it; the cache is not touched.
  pub on_body-Handled :
      (cached : Cache) (at : Bytes) (p : Parse fs) → Ok fs xs cached p → Handled cached at p
  unfolding on_body
  on_body-Handled cached at p v = elim (Bool-cases (is_empty p.info.response_status)) [
    | inr answered ↦ record { state = p; runs = rw (on_body, answered); ok = v }
    | inl open_yet ↦ elim (Bool-cases (asks (bytes "POST") (bytes "/upload") p.info)) [
      | inr other ↦ record { state = p; runs = rw (on_body, open_yet, other); ok = v }
      | inl upload ↦
          let longer = record p {
            info = record p.info { request_body = p.info.request_body ++ at };
          } in
          let r : Processed fs c now xs cached longer =
            process_upload_body-Processed fs c now xs cached longer
              (record { valid = v.valid; held = v.held; done = v.done; cache = v.cache }) in
          record {
            state =
                if r.result then r.state else record r.state { info = bad_request r.state.info };
            runs = rw (on_body, open_yet, upload, r.runs);
            ok = elim (Bool-cases r.result) [
              | inl good ↦ rw good r.ok
              | inr bad ↦ rw bad (record {
                valid = r.ok.valid;
                held = r.ok.held;
                done = r.ok.done;
                cache = r.ok.cache;
              })
            ];
          }
    ]
  ]

  -- The outcome of a request to delete a file.
  pub record Answered (p : Parse fs) : Type 0 where
    pub state : Parse fs
    pub nodes : List Ptr
    pub runs : process_delete_request fs c now p ≡ some state
    pub valid : Inv state.manager nodes
    pub answered : state.info.response_status ≡ (
        if is_valid_file p.manager p.info.cur_delete_file
          && (remove_target fs (target_file c p.info.cur_delete_file) p.world).0
        then bytes "200"
        else bytes "404")
    pub gone :
        (g : Bytes)
        → status state.manager g ≡ (
            if is_valid_file p.manager p.info.cur_delete_file && bytes_eq p.info.cur_delete_file g
            then absent
            else status p.manager g)
