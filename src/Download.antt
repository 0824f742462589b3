-- ===== src/Download.antt =====
-- HTTPconnection.hpp, lines 20 and 439 to 480: the answer to a download, and the task that sends the file.
pub mod Ranges
pub mod Promise
mod Tests
use cloud_backup_system.Common.{
  ◌+◌, ◌^◌, ltb, negsuc, Bool, true, false, ◌&&◌, Option, none, some, ◌>>=◌, [], ◌∷◌, ◌++◌, Bytes,
  bytes, bytes_eq, ℤ, pos, ◌+ℤ◌, ◌-ℤ◌, min_ℤ, ◌==◌, if◌then◌else◌, take, drop, length, to_string_ℤ,
  stoll,
}
use cloud_backup_system.Node.{BackupInfoNode, Ptr, null}
use cloud_backup_system.Path.{is_empty}
use cloud_backup_system.DataManager.{DataManager, lookup, insert, get_file_info_node}
use cloud_backup_system.Upload.{HttpMessageInfo, find, is_prefix}
use cloud_backup_system.Request.{answer, not_found}

-- A function for a connection that is bound to its arguments: `handler`, or `sendFile` with a node, a
-- start and an end.
pub data Task : Type 0 where
  handle : Task
  send : Ptr → ℤ → ℤ → Task

abbrev pub etag : BackupInfoNode → Bytes
etag info = ((info.filename ++ 45 ∷ to_string_ℤ info.time) ++ 45 ∷ to_string_ℤ info.size)

-- A result in the type `long long`; `none` where the calculation overflows, which is undefined.
abbrev pub long_long : ℤ → Option ℤ
long_long (pos n) = if ltb n (2 ^ 63) then some (pos n) else none
long_long (negsuc n) = if ltb n (2 ^ 63) then some (negsuc n) else none

-- The end of a range: the position behind the one in the text behind the dash, cut at the size.
abbrev pub range_end : Bytes → ℤ → Option ℤ
range_end [] size = some size
range_end (c ∷ s) size = do
  last ← stoll (c ∷ s)
  end ← long_long (last +ℤ pos 1)
  some (min_ℤ end size)

-- The texts that the start and the end are read from. A text without a dash is both, since `find`
-- gives -1 as an int.
abbrev pub range_parts : Bytes → Bytes × Bytes
range_parts value = elim (find (bytes "-") value) [
  | none ↦ (value, value)
  | some i ↦ (take i value, drop (i + 1) value)
]

-- The start and the end that a text behind `bytes=` names.
unfoldable pub requested_range : Bytes → ℤ → Option (ℤ × ℤ)
requested_range value size =
    let (first, rest) = range_parts value in
    do start ← stoll first; end ← range_end rest size; some (start, end)

-- The same where its length, the end less the start, does not overflow.
abbrev pub requested_part : Bytes → ℤ → Option (ℤ × ℤ)
requested_part value size = do
  (start, end) ← requested_range value size
  length ← long_long (end -ℤ start)
  some (start, end)

abbrev pub range_key : Bytes
range_key = bytes "bytes="

abbrev pub put_header : Bytes → Bytes → HttpMessageInfo → HttpMessageInfo
put_header key value m = record m { response_headers = insert key value m.response_headers }

-- The answer by the whole file.
unfoldable pub whole : BackupInfoNode → HttpMessageInfo → HttpMessageInfo
whole info m =
    put_header (bytes "Content-Disposition")
      (bytes "attachment; filename=\"" ++ info.filename ++ b'"' ∷ [])
      (put_header (bytes "Content-Length") (to_string_ℤ info.size) (
        put_header (bytes "ETag") (etag info) (
          put_header (bytes "Accept-Ranges") (bytes "bytes") (
            put_header (bytes "Content-Type") (bytes "application/octet-stream")
              (answer (bytes "200") (bytes "OK") m)))))

abbrev pub content_range : ℤ → ℤ → ℤ → Bytes
content_range start end size =
    bytes "bytes " ++ to_string_ℤ start ++ 45 ∷ to_string_ℤ (end -ℤ pos 1) ++ 47 ∷ to_string_ℤ size

-- The answer by a part, over the answer by the whole file.
unfoldable pub partial : BackupInfoNode → ℤ → ℤ → HttpMessageInfo → HttpMessageInfo
partial info start end m = put_header (bytes "Content-Range") (content_range start end info.size) (
    put_header (bytes "Content-Length") (to_string_ℤ (end -ℤ start))
      (answer (bytes "206") (bytes "Partial Content") m))

-- The headers If-Range and Range of a request that has both.
abbrev pub range_headers : HttpMessageInfo → Option (Bytes × Bytes)
range_headers m = do
  condition ← lookup (bytes "if-range") m.request_headers
  value ← lookup (bytes "range") m.request_headers
  some (condition, value)

abbrev pub range_for : BackupInfoNode → Bytes → Bytes → Option (ℤ × ℤ)
range_for info condition value =
    if bytes_eq condition (etag info) && is_prefix range_key value
    then requested_part (drop (length range_key) value) info.size
    else some (pos 0, info.size)

-- process_download_request: the answer, and the task that is bound, if any; `none` is an
-- exception of `stoll` or an overflow.
unfoldable pub process_download_request :
    DataManager → HttpMessageInfo → Option (HttpMessageInfo × Option Task)
unfolding requested_range
process_download_request d m =
    let p = get_file_info_node m.cur_download_file d in
    let info = (d.heap p).info in
    if p == null then some (not_found m, none) else elim (range_headers m) [
      | none ↦ some (whole info m, some (send p (pos 0) info.size))
      | some headers ↦ do
        (start, end) ← range_for info headers.0 headers.1
        some (partial info start end (whole info m), some (send p start end))
    ]
