-- ===== src/Download/Promise.antt =====
-- HTTPconnection.hpp, process_download_request: the head of the answer and the task that follows it.
use cloud_backup_system.Common.{
  ◌≡◌, ◌≢◌, refl, true, false, ◌&&◌, Option, none, some, arith, Bytes, bytes, bytes_eq, ℤ, pos,
  is_negative, ◌-ℤ◌, ltb_ℤ, if◌then◌else◌, is_some, length, drop, to_string_ℤ, Option-cases,
  bytes_eq_refl, Bool-cases, inl, inr, List,
}
use cloud_backup_system.Node.{BackupInfoNode, Ptr, null}
use cloud_backup_system.DataManager.{
  DataManager, lookup, insert, lookup-insert, is_valid_file, node_of, get_file_info_node,
}
use cloud_backup_system.DataManager.Inv.{Inv, uploaded, status, valid_node}
use cloud_backup_system.Upload.{HttpMessageInfo, is_prefix}
use cloud_backup_system.Download.{
  send, etag, range_key, range_headers, range_for, requested_range, requested_part, long_long,
  whole, partial, process_download_request,
}
use cloud_backup_system.Download.Ranges.{requested_range_bounds}

-- The part of the file that a request asks for; `none` where it cannot be read, or
-- overflows.
abbrev pub wanted : BackupInfoNode → HttpMessageInfo → Option (ℤ × ℤ)
wanted info m = elim (range_headers m) [
  | none ↦ some (pos 0, info.size)
  | some headers ↦ range_for info headers.0 headers.1
]

-- The answer by the part from `start` to `end` of the file of a node, and the task that sends it.
pub record Promised (d : DataManager) (m : HttpMessageInfo) (info : BackupInfoNode) (start end : ℤ)
    : Type 0 where
  pub node : Ptr
  pub reply : HttpMessageInfo
  pub runs : process_download_request d m ≡ some (reply, some (send node start end))
  pub node_info : (d.heap node).info ≡ info
  pub named : info.filename ≡ m.cur_download_file
  pub content_length :
      lookup (bytes "Content-Length") reply.response_headers ≡ some (to_string_ℤ (end -ℤ start))
  pub tag : lookup (bytes "ETag") reply.response_headers ≡ some (etag info)
  pub reply_status :
      reply.response_status ≡ (if is_some (range_headers m) then bytes "206" else bytes "200")
  pub first : is_negative start ≡ false
  pub last : ltb_ℤ info.size end ≡ false

part_bounds :
    (value : Bytes) (size start end : ℤ)
    → requested_part value size ≡ some (start, end)
    → (is_negative start ≡ false) × (ltb_ℤ size end ≡ false)
part_bounds value size start end h = elim (Option-cases (requested_range value size)) [
  | inl e ↦ absurd (ground (arith, h, e))
  | inr ((s, t), e) ↦ elim (Option-cases (long_long (t -ℤ s))) [
    | inl f ↦ absurd (ground (arith, h, e, f))
    | inr (n, f) ↦
        let both : (s ≡ start) × (t ≡ end) = ground (arith, h, e, f) in
        let (first, last) = requested_range_bounds value size s t e in
        (rw (← both.0) first, rw (← both.1) last)
  ]
]

range_for_bounds :
    (info : BackupInfoNode) (condition value : Bytes) (start end : ℤ)
    → range_for info condition value ≡ some (start, end)
    → (is_negative start ≡ false) × (ltb_ℤ info.size end ≡ false)
range_for_bounds info condition value start end h =
    elim (Bool-cases (bytes_eq condition (etag info) && is_prefix range_key value)) [
      | inl e ↦ part_bounds (drop (length range_key) value) info.size start end (rw e at h)
      | inr e ↦ ground (arith, rw e at h)
    ]

minus_zero : (a : ℤ) → a -ℤ pos 0 ≡ a
minus_zero a = ground arith

insert_same : (k v : Bytes) (m : List (Bytes × Bytes)) → lookup k (insert k v m) ≡ some v
insert_same k v m = ground (arith, lookup-insert k k v m, bytes_eq_refl k)

insert_other :
    (k j : Bytes)
    → bytes_eq k j ≡ false
    → (v : Bytes) (m : List (Bytes × Bytes)) → lookup j (insert k v m) ≡ lookup j m
insert_other k j h v m = ground (arith, lookup-insert k j v m)

tag-whole :
    (info : BackupInfoNode) (m : HttpMessageInfo)
    → lookup (bytes "ETag") (whole info m).response_headers ≡ some (etag info)
unfolding whole
tag-whole info m =
    rw
      (
        insert_other (bytes "Content-Disposition") (bytes "ETag") refl,
        insert_other (bytes "Content-Length") (bytes "ETag") refl,
        insert_same (bytes "ETag"),
      )
      refl

content_length-whole :
    (info : BackupInfoNode) (m : HttpMessageInfo)
    → lookup (bytes "Content-Length") (whole info m).response_headers ≡ some (to_string_ℤ info.size)
unfolding whole
content_length-whole info m =
    rw
      (
        insert_other (bytes "Content-Disposition") (bytes "Content-Length") refl,
        insert_same (bytes "Content-Length"),
      )
      refl

module _ (d : DataManager) (m : HttpMessageInfo) (info : BackupInfoNode) (start end : ℤ)
    (p0 : node_of d m.cur_download_file ≢ null) (named : info.filename ≡ m.cur_download_file)
    (here : (d.heap (node_of d m.cur_download_file)).info ≡ info)
    (ok : is_valid_file d m.cur_download_file ≡ true)
    (part : wanted info m ≡ some (start, end)) where
  promise_whole : range_headers m ≡ none → Promised d m info start end
  unfolding process_download_request get_file_info_node whole
  promise_whole e = record {
    node = node_of d m.cur_download_file;
    reply = whole info m;
    runs = ground (arith, e, here, part);
    node_info = here;
    named = named;
    content_length =
        let all : (start ≡ pos 0) × (end ≡ info.size) = ground (arith, part, e) in
        let size : end -ℤ start ≡ info.size = rw (all.0, all.1) (minus_zero info.size) in
        rw size (content_length-whole info m);
    tag = tag-whole info m;
    reply_status = rw e refl;
    first = ground (arith, part, e);
    last = ground (arith, part, e);
  }

  promise_part :
      (headers : Bytes × Bytes) → range_headers m ≡ some headers → Promised d m info start end
  unfolding process_download_request get_file_info_node partial
  promise_part headers e =
      let read : range_for info headers.0 headers.1 ≡ some (start, end) = rw (e, wanted) at part in
      let bounds = range_for_bounds info headers.0 headers.1 start end read in
      record {
        node = node_of d m.cur_download_file;
        reply = partial info start end (whole info m);
        runs = ground (arith, e, here, read);
        node_info = here;
        named = named;
        content_length =
            rw
              (
                insert_other (bytes "Content-Range") (bytes "Content-Length") refl,
                insert_same (bytes "Content-Length"),
              )
              refl;
        tag =
            rw
              (
                insert_other (bytes "Content-Range") (bytes "ETag") refl,
                insert_other (bytes "Content-Length") (bytes "ETag") refl,
              )
              (tag-whole info m);
        reply_status = rw e refl;
        first = bounds.0;
        last = bounds.1;
      }

-- On a well-formed manager a request to download an uploaded file, whose part can be read without an overflow, is
-- answered by 206 if it has the headers If-Range and Range and by 200 otherwise; the task that is
-- bound sends the part from `start` to `end` of the node with this information, the Content-Length
-- is the decimal of the difference of the two, `start` is not negative and `end` is at most the size
-- of the file. (`start` may lie behind `end`.)
pub process_download_request-Promised :
    (d : DataManager) (xs : List Ptr) (m : HttpMessageInfo) (info : BackupInfoNode) (start end : ℤ)
    → Inv d xs
    → status d m.cur_download_file ≡ uploaded info
    → wanted info m ≡ some (start, end)
    → Promised d m info start end
unfolding status
process_download_request-Promised d xs m info start end v up part =
    let name = m.cur_download_file in
    let ok : is_valid_file d name ≡ true = ground (arith, up) in
    let (e, p0, old, ng, named) = valid_node d xs name v ok in
    let here : (d.heap (node_of d name)).info ≡ info = ground (arith, up, e) in
    elim (Option-cases (range_headers m)) [
      | inl e' ↦ promise_whole d m info start end p0 (rw (← here) named) here ok part e'
      | inr (headers, e') ↦
          promise_part d m info start end p0 (rw (← here) named) here ok part headers e'
    ]
