-- ===== src/Upload/Flow.antt =====
-- HTTPconnection.hpp, process_upload_body: the bytes of one file, whose part of the body comes in
-- pieces and ends at the first line break with the boundary.
use cloud_backup_system.Common.{
  ℕ, ◌+◌, ◌-◌, ◌≤◌, ◌<◌, ◌≡◌, refl, sym, ap, Bool, true, false, none, some, [], ◌∷◌, ◌++◌, arith,
  Bytes, ℤ, length, take, drop, take-drop, take-append, drop-append, append_assoc, append-nil,
  if◌then◌else◌, ◌∙◌,
}
use cloud_backup_system.Path.{is_empty}
use cloud_backup_system.FileUtil.{FileSystem, append_content}
use cloud_backup_system.DataManager.{Settings, target_file}
use cloud_backup_system.Upload.{
  HttpMessageInfo, Parse, next, find, sep, is_long, file_content, read_content, settle, finish_file,
}
use cloud_backup_system.Upload.Find.{length-drop, length-take, find_within}
use cloud_backup_system.Upload.Search.{
  drop-append_within, take-append_within, find-append, find_across, find-drop,
}
use cloud_backup_system.Upload.Inv.{after}

-- Bytes that are appended to the file `f` land in it.
pub record Appends (fs : FileSystem) (f : Bytes) (text : fs.World → Bytes) : Type 0 where
  pub lands : (s : Bytes) (w : fs.World) → (append_content fs f s w).0 ≡ true
  pub adds : (s : Bytes) (w : fs.World) → text (append_content fs f s w).1 ≡ text w ++ s

-- The line break before a boundary, where it is still there.
abbrev pub lead : Bool → Bytes
lead true = sep
lead false = []

-- The fields that the bytes of a file leave alone.
pub record Same (m n : HttpMessageInfo) : Type 0 where
  pub boundary : n.body_boundary ≡ m.body_boundary
  pub method : n.request_method ≡ m.request_method
  pub prefix : n.request_url_prefix ≡ m.request_url_prefix
  pub status : n.response_status ≡ m.response_status
  pub fails : n.upload_fail_files ≡ m.upload_fail_files

-- The message `m` is the one with the file at hand, before its bytes; they make the file's text
-- `total`, and `tail` follows the boundary behind them.
module _ (fs : FileSystem) (c : Settings) (now : fs.World → ℤ) (m : HttpMessageInfo)
    (text : fs.World → Bytes) (total tail : Bytes) where
  open fs use {World}

  abbrev pub ending : Bytes
  ending = sep ++ m.body_boundary

  -- The end has not been read yet: `rest` is what of the file is not written, `future` what has not
  -- come in.
  pub record Filling (p : Parse fs) (future rest : Bytes) : Type 0 where
    pub same : Same m p.info
    pub at_hand : p.info.cur_upload_file ≡ m.cur_upload_file
    pub done : p.info.upload_success_files ≡ m.upload_success_files
    pub body : p.info.request_body ++ future ≡ rest ++ (ending ++ tail)
    pub found : find ending (p.info.request_body ++ future) ≡ some (length rest)
    pub written : text p.world ++ rest ≡ total

  -- The end has been read.
  pub record Filled (p : Parse fs) (future : Bytes) : Type 0 where
    pub same : Same m p.info
    pub closed : p.info.cur_upload_file ≡ []
    pub done : p.info.upload_success_files ≡ m.upload_success_files ++ m.cur_upload_file ∷ []
    pub broken : Bool
    pub body : p.info.request_body ++ future ≡ lead broken ++ (m.body_boundary ++ tail)
    pub written : text p.world ≡ total

  module _ (open_file : is_empty m.cur_upload_file ≡ false)
      (appends : Appends fs (target_file c m.cur_upload_file) text) where
    -- What a write does, also where there is nothing to write.
    abbrev flushed : Bytes → Bytes → World → Bool × World
    flushed f s w = if is_empty s then (true, w) else append_content fs (target_file c f) s w

    flush :
        (f s : Bytes) (w : World)
        → f ≡ m.cur_upload_file
        → ((flushed f s w).0 ≡ true) × (text (flushed f s w).1 ≡ text w ++ s)
    flush f [] w e = (refl, sym (append-nil (text w)))
    flush f (x ∷ s) w e = rw e (appends.lands (x ∷ s) w, appends.adds (x ∷ s) w)

    -- A round that does not find the end.
    pub fill_more :
        (p : Parse fs) (future rest : Bytes)
        → Filling p future rest
        → is_long p.info ≡ true
        → find (sep ++ p.info.body_boundary) p.info.request_body ≡ none
        → (q : Parse fs) × (less : Bytes) × (read_content fs c now p ≡ next q)
          × Filling q future less
    unfolding read_content settle
    fill_more p future rest v long e =
        let body = p.info.request_body in
        let content = file_content p.info none in
        let k = length body - length p.info.body_boundary - 2 in
        let size : length content ≡ k = length-take k body (omega arith) in
        let (lands, adds) = flush p.info.cur_upload_file content p.world v.at_hand in
        let e' : find ending body ≡ none = rw (← v.same.boundary) e in
        let inside : length body < length rest + length ending =
          find_across ending body future (length rest) e' v.found in
        let short : k ≤ length rest = omega (arith, inside, ap length v.same.boundary) in
        let kept : drop k (body ++ future) ≡ drop k body ++ future =
          drop-append_within k body future (omega arith) in
        let same_part : take k body ≡ take k rest =
          sym (take-append_within k body future (omega arith))
          ∙ (ap (take k) v.body ∙ take-append_within k rest (ending ++ tail) short) in
        (
          record {
            info = record p.info { request_body = drop (length content) body };
            manager = p.manager;
            world = (flushed p.info.cur_upload_file content p.world).1;
          },
          drop k rest,
          rw (read_content, e, lands),
          record {
            same = record {
              boundary = v.same.boundary;
              method = v.same.method;
              prefix = v.same.prefix;
              status = v.same.status;
              fails = v.same.fails;
            };
            at_hand = v.at_hand;
            done = v.done;
            body = rw size (
                sym kept ∙ (ap (drop k) v.body ∙ drop-append_within k rest (ending ++ tail) short));
            found =
                rw (size, ← kept, length-drop k rest)
                  (find-drop ending (body ++ future) (length rest) k v.found short);
            written =
                rw
                  (
                    adds,
                    same_part,
                    append_assoc (text p.world) (take k rest) (drop k rest),
                    take-drop k rest,
                  )
                  v.written;
          },
        )

    -- A round that finds the end.
    pub fill_last :
        (p : Parse fs) (future rest : Bytes) (i : ℕ)
        → Filling p future rest
        → find (sep ++ p.info.body_boundary) p.info.request_body ≡ some i
        → (q : Parse fs) × (read_content fs c now p ≡ next q) × Filled q future
    unfolding read_content settle finish_file
    fill_last p future rest i v e =
        let body = p.info.request_body in
        let content = file_content p.info (some i) in
        let e' : find ending body ≡ some i = rw (← v.same.boundary) e in
        let at : i ≡ length rest = cc (find-append ending body future i e', v.found) in
        let within : i ≤ length body = omega (arith, find_within ending body i e') in
        let size : length content ≡ i = length-take i body within in
        let part : content ≡ rest =
          sym (take-append_within i body future within)
          ∙ (ap (take i) v.body ∙ rw at (take-append rest (ending ++ tail))) in
        let (lands, adds) = flush p.info.cur_upload_file content p.world v.at_hand in
        (
          after (
              finish_file fs c now (record {
                info = record p.info { request_body = drop (length content) body };
                manager = p.manager;
                world = (flushed p.info.cur_upload_file content p.world).1;
              })),
          rw (read_content, e, lands),
          record {
            same = record {
              boundary = v.same.boundary;
              method = v.same.method;
              prefix = v.same.prefix;
              status = v.same.status;
              fails = v.same.fails;
            };
            closed = refl;
            done = rw (v.done, v.at_hand);
            broken = true;
            body = rw size (
                sym (drop-append_within i body future within)
                ∙ (ap (drop i) v.body
                    ∙ rw (at, append_assoc sep m.body_boundary tail)
                        (drop-append rest (ending ++ tail))));
            written = rw (adds, part) v.written;
          },
        )
