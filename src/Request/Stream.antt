-- ===== src/Request/Stream.antt =====
-- HTTPconnection.hpp, on_body: the pieces in which the bytes of one file come in.
use cloud_backup_system.Common.{
  ◌<◌, ◌≡◌, refl, ap, true, false, none, some, List, [], ◌∷◌, ◌++◌, arith, Bytes, bytes, ℤ, length,
  inr,
}
use cloud_backup_system.Node.{Ptr}
use cloud_backup_system.Path.{is_empty}
use cloud_backup_system.FileUtil.{FileSystem}
use cloud_backup_system.DataManager.{Settings, target_file}
use cloud_backup_system.DataManager.Inv.{status}
use cloud_backup_system.DataManager.Register.{is_uploaded}
use cloud_backup_system.DataManager.Cache.{Cache}
use cloud_backup_system.Upload.{Parse, find, sep}
use cloud_backup_system.Upload.Inv.{Ok, all_uploaded, all_uploaded-append}
use cloud_backup_system.Upload.Flow.{Appends, Filling}
use cloud_backup_system.Upload.Rounds.{is_dashed}
use cloud_backup_system.Request.{asks}
use cloud_backup_system.Request.Feeding.{joined, feed, Phase, Streamed, feed-Streamed}

module _ (fs : FileSystem) (c : Settings) (now : fs.World → ℤ) (xs : List Ptr)
    (cached : Cache) where
  open fs use {World}

  -- The outcome of an upload of `content`, cut into pieces.
  pub record Uploaded (text : World → Bytes) (content : Bytes) (pieces : List Bytes) (p : Parse fs)
      : Type 0 where
    pub state : Parse fs
    pub runs : feed fs c now pieces p ≡ some state
    pub written : text state.world ≡ text p.world ++ content
    pub closed : state.info.cur_upload_file ≡ []
    pub listed :
        state.info.upload_success_files ≡ p.info.upload_success_files ++ p.info.cur_upload_file ∷ []
    pub fails : state.info.upload_fail_files ≡ p.info.upload_fail_files
    pub stored : is_uploaded (status state.manager p.info.cur_upload_file) ≡ true
    pub ok : Ok fs xs cached state

  -- Let an upload have a file at hand and none of its bytes, and let its pieces, wherever they are
  -- cut, join to a content, the first line break with the boundary, and a tail that is not empty and
  -- in which no other part has its head. If bytes that are appended to the file land in it, then the
  -- calls end, the file's text has grown by exactly the content, and the file is uploaded and
  -- reported as done, with no other file reported as done or failed. The bookkeeping and the cache
  -- stay well formed. (The boundary begins with two dashes, as the end of the headers sets it.)
  pub upload_streams :
      (text : World → Bytes) (content tail : Bytes) (pieces : List Bytes) (p : Parse fs)
      → Ok fs xs cached p
      → asks (bytes "POST") (bytes "/upload") p.info ≡ true
      → is_empty p.info.response_status ≡ true
      → is_dashed p.info.body_boundary ≡ true
      → is_empty p.info.cur_upload_file ≡ false
      → p.info.request_body ≡ []
      → Appends fs (target_file c p.info.cur_upload_file) text
      → joined pieces ≡ content ++ ((sep ++ p.info.body_boundary) ++ tail)
      → find (sep ++ p.info.body_boundary) (joined pieces) ≡ some (length content)
      → 0 < length tail
      → find (sep ++ sep) (p.info.body_boundary ++ tail) ≡ none
      → Uploaded text content pieces p
  unfolding Phase
  upload_streams text content tail pieces p ok ask waits dashed open_file none_yet lands whole found
        more last =
      let m = p.info in
      let total = text p.world ++ content in
      let start : Filling fs c now m text total tail p (joined pieces) content = record {
        same = record {
          boundary = refl;
          method = refl;
          prefix = refl;
          status = refl;
          fails = refl;
        };
        at_hand = refl;
        done = refl;
        body = rw none_yet whole;
        found = rw none_yet found;
        written = refl;
      } in
      let r : Streamed fs c now m text total tail dashed last open_file lands ask waits xs cached
          pieces p =
        feed-Streamed fs c now m text total tail dashed last open_file lands ask waits xs cached
          pieces p more ok (inr (content, start, ground arith)) in
      record {
        state = r.state;
        runs = r.runs;
        written = r.filled.written;
        closed = r.filled.closed;
        listed = r.filled.done;
        fails = r.filled.same.fails;
        stored = ground (
          arith,
          r.ok.done,
          ap (all_uploaded r.state.manager) r.filled.done,
          all_uploaded-append r.state.manager m.upload_success_files m.cur_upload_file,
        );
        ok = r.ok;
      }
