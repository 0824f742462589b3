-- ===== src/Connection/Sending.antt =====
-- HTTPconnection.hpp, sendFile: the first piece of a file, from the cache or from the disk, and the whole
-- part of a file that a task sends.
use cloud_backup_system.Common.{
  ℕ, zero, suc, ◌+◌, ◌-◌, ◌^◌, ◌<◌, ◌≤◌, ◌≡◌, ◌≢◌, refl, true, false, none, some, List, [], ◌++◌,
  Bytes, pos, ltb, min_ℤ, ◌-ℤ◌, take, drop, length, arith, inl, inr, Bool-cases, Option-cases, sym,
  ◌∙◌, ap, ltb→lt,
}
use cloud_backup_system.Path.{Env, is_empty}
use cloud_backup_system.FileUtil.{FileSystem, get_content}
use cloud_backup_system.Node.{Ptr, null}
use cloud_backup_system.DataManager.{
  DataManager, lookup, is_valid_file, target_file, to_u64, get_file_pre_content,
  put_file_pre_content,
}
use cloud_backup_system.DataManager.Cache.{find, get, view}
use cloud_backup_system.DataManager.Inv.{Inv}
use cloud_backup_system.DataManager.Reads.{Read, get_refines, get-hash}
use cloud_backup_system.DataManager.Writes.{Written, put_refines, put-hash}
use cloud_backup_system.Config.{Config, settings_of}
use cloud_backup_system.Download.{send}
use cloud_backup_system.Upload.Find.{length-take}
use cloud_backup_system.Connection.{Session, notify_new_message_need_send}
use cloud_backup_system.Connection.Tasks.{next_piece, cached_piece, read_piece}
use cloud_backup_system.Connection.Delivery.{
  Holds, chunk, content_at, split_part, after_piece, parse-after, bound-after, Delivered,
  deliver_piece, deliver_last, deliver_later,
}

module _ (fs : FileSystem) (env : Env) (c : Config) (id : Bytes) (name text : Bytes) (w : fs.World)
    (limit : ℕ) (holds : Holds fs (target_file (settings_of env c) name) text w)
    (positive : 0 < limit) (small : length text < 2 ^ 63)
    (limited : c.max_file_read_size ≡ pos limit) where
  read_piece_start :
      (p : Ptr) (end : ℕ) (content : Bytes) (d d' : DataManager)
      → get_content fs
          (target_file (settings_of env c) (d.heap p).info.filename)
          (to_u64 (pos 0))
          (to_u64 (min_ℤ c.max_file_read_size (pos end -ℤ pos 0)))
          w
        ≡ some content
      → put_file_pre_content (settings_of env c) (d.heap p).info.filename content d
        ≡ some (true, d')
      → read_piece fs env c p (pos 0) (pos end) d w ≡ some (some content, d')
  unfolding read_piece
  read_piece_start p end content d d' got put = ground (arith, got, put)

  -- The first piece of a part that starts with the file.
  record First (p : Ptr) (end : ℕ) (d : DataManager) : Type 0 where
    piece : Bytes
    state : DataManager
    nodes : List Ptr
    runs : next_piece fs env c p (pos 0) (pos end) d w ≡ some (some piece, state)
    prefix : piece ≡ take (length piece) text
    some_bytes : 0 < length piece
    within : length piece ≤ end
    valid : Inv state nodes
    hash : state.hash ≡ d.hash

  module _ (p : Ptr) (end : ℕ) (d : DataManager) (xs : List Ptr) (v : Inv d xs)
      (here : lookup name d.hash ≡ some p) (p0 : p ≢ null) (bytes_asked : 0 < end)
      (fits : end ≤ length text)
      (cached : (content : Bytes)
        → find name (view d.heap xs) ≡ some content
        → (content ≡ take (length content) text) × (length content ≤ end)) where
    named : (d.heap p).info.filename ≡ name
    named = let (old, guard, n) = v.live name p here p0 in n

    read : Read d xs name
    read = get_refines d xs name v

    from_cache :
        (content : Bytes)
        → find name (view d.heap xs) ≡ some content
        → is_empty content ≡ false
        → First p end d
    unfolding next_piece cached_piece
    from_cache content e filled =
        let r = read in
        let got : get_file_pre_content name d ≡ some (content, r.state) =
          rw (r.runs, get, e) refl in
        let (first, last) = cached content e in
        record {
          piece = content;
          state = r.state;
          nodes = r.nodes;
          runs = rw (named, got, filled) refl;
          prefix = first;
          some_bytes = ground arith;
          within = last;
          valid = r.valid;
          hash = get-hash d r.state name content got;
        }

    from_disk : get_file_pre_content name d ≡ some ([], read.state) → First p end d
    unfolding next_piece cached_piece
    from_disk got =
        let r = read in
        let same = get-hash d r.state name [] got in
        let found : lookup name r.state.hash ≡ some p = rw same here in
        let (old, guard, label) = r.valid.live name p found p0 in
        let n : ℕ = chunk fs env c id name text w limit holds positive small limited 0 end in
        let content : Bytes = take n text in
        let wrote : Written (settings_of env c) r.state r.nodes name content =
          put_refines (settings_of env c) r.state r.nodes name content r.valid in
        let ok : is_valid_file r.state name ≡ true = ground arith in
        let room : n ≤ end = ground arith in
        let size : length content ≡ n = length-take n text (omega (arith, room)) in
        let put : put_file_pre_content (settings_of env c) name content r.state
            ≡ some (true, wrote.state) =
          rw ok at wrote.runs in
        let on_disk : get_content fs (target_file (settings_of env c) name) (to_u64 (pos 0))
              (to_u64 (min_ℤ c.max_file_read_size (pos end -ℤ pos 0))) w
            ≡ some content =
          content_at fs env c id name text w limit holds positive small limited 0 end bytes_asked
            fits in
        let done : read_piece fs env c p (pos 0) (pos end) r.state w
            ≡ some (some content, wrote.state) =
          read_piece_start p end content r.state wrote.state (rw label on_disk) (rw label put) in
        record {
          piece = content;
          state = wrote.state;
          nodes = wrote.nodes;
          runs = rw (named, got, done) refl;
          prefix = rw size refl;
          some_bytes = ground arith;
          within = omega (arith, size, room);
          valid = wrote.valid;
          hash = put-hash (settings_of env c) r.state wrote.state name content true put ∙ same;
        }

    first : First p end d
    first = elim (Option-cases (find name (view d.heap xs))) [
      | inl e ↦ from_disk (rw (read.runs, get, e) refl)
      | inr (content, e) ↦ elim (Bool-cases (is_empty content)) [
        | inl none_there ↦ from_disk (rw (read.runs, get, e) (ground (arith, none_there)))
        | inr filled ↦ from_cache content e filled
      ]
    ]

  deliver_start :
      (p : Ptr) (end : ℕ) (s : Session fs)
      → p ≢ null
      → lookup name s.parse.manager.hash ≡ some p
      → s.parse.world ≡ w
      → s.sub_task ≡ some (send p (pos 0) (pos end))
      → 0 < end
      → end ≤ length text
      → First p end s.parse.manager
      → Delivered fs env c id s (suc (suc end)) (take end text)
  unfolding notify_new_message_need_send
  deliver_start p end s p0 here world bound more fits f =
      let n : ℕ = length f.piece in
      let clean : Session fs = record s { sub_task = none } in
      let (old, guard, label) = f.valid.live name p (rw f.hash here) p0 in
      let rest : Bytes = take (end - (0 + n)) (drop (0 + n) text) in
      let next : Session fs = after_piece fs env c id p 0 end f.piece f.state clean in
      let r : Delivered fs env c id next (suc end) rest = elim (Bool-cases (ltb (0 + n) end)) [
        | inl going ↦
            let same = parse-after fs env c id p 0 end f.piece f.state clean in
            deliver_later fs env c id name text w limit holds positive small limited (suc end) p
              (0 + n) end next p0 (rw same label) (rw same world)
              (bound-after fs env c id p 0 end f.piece f.state clean going)
              (omega (arith, f.some_bytes)) (ltb→lt (0 + n) end going) fits (omega arith)
        | inr finished ↦
            let none_left : end - (0 + n) ≡ 0 = ground arith in
            rw none_left (
              deliver_last fs env c id name text w limit holds positive small limited end p 0 end
                f.piece f.state clean finished refl)
      ] in
      let got : next_piece fs env c p (pos 0) (pos end) s.parse.manager s.parse.world
          ≡ some (some f.piece, f.state) =
        rw world f.runs in
      let zero : end - 0 ≡ end = omega arith in
      let split : take end text ≡ f.piece ++ rest =
        rw zero at (
          split_part fs env c id name text w limit holds positive small limited 0 end n
            (omega (arith, f.within)))
        ∙ ap (λ t. t ++ rest) (sym f.prefix) in
      rw split (
        deliver_piece fs env c id name text w limit holds positive small limited (suc end) p 0 end
          f.piece rest f.state s p0 bound more got r)

  -- If a file on the disk holds a text shorter than 2 ^ 63 bytes, the configuration reads at least one
  -- byte at a time, the manager is well formed, the name is that of the node `p`, and what is cached
  -- of it are first bytes of the text, no more than up to `end`, then `sendFile` from `start` to
  -- `end`, with the tasks that it binds, comes to an end: it puts exactly the bytes of the text from
  -- `start` to `end` behind those in the buffer, and no task is left.
  pub deliver_part :
      (p : Ptr) (start end : ℕ) (s : Session fs) (xs : List Ptr)
      → Inv s.parse.manager xs
      → lookup name s.parse.manager.hash ≡ some p
      → p ≢ null
      → s.parse.world ≡ w
      → s.sub_task ≡ some (send p (pos start) (pos end))
      → start < end
      → end ≤ length text
      → ((content : Bytes)
          → find name (view s.parse.manager.heap xs) ≡ some content
          → (content ≡ take (length content) text) × (length content ≤ end))
      → Delivered fs env c id s (suc (suc (end - start))) (take (end - start) (drop start text))
  deliver_part p zero end s xs v here p0 world bound more fits cached =
      let zero : end - 0 ≡ end = omega arith in
      rw zero (
        deliver_start p end s p0 here world bound more fits
          (first p end s.parse.manager xs v here p0 more fits cached))
  deliver_part p (suc start) end s xs v here p0 world bound more fits cached =
      let (old, guard, label) = v.live name p here p0 in
      deliver_later fs env c id name text w limit holds positive small limited
        (suc (suc (end - suc start))) p (suc start) end s p0 label world bound (omega arith) more
        fits (omega arith)
