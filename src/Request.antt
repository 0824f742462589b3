-- ===== src/Request.antt =====
-- HTTPconnection.hpp, lines 124 to 133, 197 to 307 and 481 to 531: the callbacks of the parser of
-- requests, and the answers to deletes and uploads. llhttp calls the callbacks with pieces of the
-- fields, in the order of the request.
pub mod Fields
pub mod Headers
pub mod Body
pub mod Feeding
pub mod Stream
mod Tests
use cloud_backup_system.Common.{
  ℕ, zero, suc, ◌+◌, ◌-◌, Bool, true, false, not, ◌&&◌, ◌||◌, Option, none, some, List, [], ◌∷◌,
  ◌++◌, Bytes, bytes, bytes_eq, ℤ, leb, ltb, ◌==◌, if◌then◌else◌, length, take, drop, is_some,
  ◌>>=◌,
}
use cloud_backup_system.Path.{is_empty, slash, root, check_filename}
use cloud_backup_system.Path.Url.{url_decode}
use cloud_backup_system.FileUtil.{FileSystem}
use cloud_backup_system.DataManager.{Settings, lookup, insert, delete_file}
use cloud_backup_system.Upload.{HttpMessageInfo, cleared, Parse, find, sep, process_upload_body}

abbrev pub upper : Bytes → Bytes
upper [] = []
upper (c ∷ cs) = (if leb b'a' c && leb c b'z' then c - 32 else c) ∷ upper cs

abbrev pub lower : Bytes → Bytes
lower [] = []
lower (c ∷ cs) = (if leb b'A' c && leb c b'Z' then c + 32 else c) ∷ lower cs

unfoldable pub on_message_begin : HttpMessageInfo → HttpMessageInfo
on_message_begin m = cleared

unfoldable pub on_method : Bytes → HttpMessageInfo → HttpMessageInfo
on_method at m = record m { request_method = m.request_method ++ upper at }

unfoldable pub on_url : Bytes → HttpMessageInfo → HttpMessageInfo
on_url at m = record m { request_url = m.request_url ++ at }

-- The position of the second slash, the first one that is not at the start.
abbrev pub second_slash : Bytes → Option ℕ
second_slash [] = none
second_slash (c ∷ cs) = elim (find root cs) [ none ↦ none | some i ↦ some (suc i) ]

unfoldable pub on_url_complete : HttpMessageInfo → HttpMessageInfo
on_url_complete m = elim (second_slash m.request_url) [
  | none ↦ record m { request_url_prefix = m.request_url }
  | some pos ↦ record m {
    request_url_prefix = take pos m.request_url;
    request_url_path =
        if ltb pos (length m.request_url) then drop pos m.request_url else m.request_url_path;
  }
]

unfoldable pub on_version : Bytes → HttpMessageInfo → HttpMessageInfo
on_version at m = record m { request_version = m.request_version ++ at }

unfoldable pub on_header_field : Bytes → HttpMessageInfo → HttpMessageInfo
on_header_field at m = record m {
  request_cur_header_field = m.request_cur_header_field ++ lower at;
}

unfoldable pub on_header_value : Bytes → HttpMessageInfo → HttpMessageInfo
on_header_value at m = record m { request_cur_header_value = m.request_cur_header_value ++ at }

unfoldable pub on_header_value_complete : HttpMessageInfo → HttpMessageInfo
on_header_value_complete m = record m {
  request_headers = insert m.request_cur_header_field m.request_cur_header_value m.request_headers;
  request_cur_header_field = [];
  request_cur_header_value = [];
}

abbrev pub asks : Bytes → Bytes → HttpMessageInfo → Bool
asks method prefix m = bytes_eq m.request_method method && bytes_eq m.request_url_prefix prefix

abbrev pub answer : Bytes → Bytes → HttpMessageInfo → HttpMessageInfo
answer status describe m = record m {
  response_status = status;
  response_status_describe = describe;
}

abbrev pub not_found : HttpMessageInfo → HttpMessageInfo
not_found m = answer (bytes "404") (bytes "Not Found") m

abbrev pub bad_request : HttpMessageInfo → HttpMessageInfo
bad_request m = answer (bytes "400") (bytes "Bad Request") m

-- `_request_url_path.substr(1)`, which throws on the empty path, decoded.
abbrev pub filename_of : Bytes → Option Bytes
filename_of [] = none
filename_of (c ∷ cs) = some (url_decode cs)

abbrev pub checked : Bytes → HttpMessageInfo → HttpMessageInfo
checked name m = if check_filename name then m else not_found m

abbrev pub boundary_key : Bytes
boundary_key = bytes "boundary="

-- The boundary that a content type names.
abbrev pub boundary_of : Bytes → Option Bytes
boundary_of value = elim (find boundary_key value) [
  | none ↦ none
  | some i ↦ some (bytes "--" ++ drop (i + length boundary_key) value)
]

unfoldable pub set_boundary : HttpMessageInfo → HttpMessageInfo
set_boundary m = elim (lookup (bytes "content-type") m.request_headers) [
  | none ↦ bad_request m
  | some value ↦ elim (boundary_of value) [
    | none ↦ bad_request m
    | some boundary ↦ record m { body_boundary = boundary }
  ]
]

-- `none` is an exception.
unfoldable pub on_headers_complete : HttpMessageInfo → Option HttpMessageInfo
unfolding set_boundary
on_headers_complete m0 =
    let m = record m0 { response_version = bytes "HTTP/" ++ m0.request_version } in
    if asks (bytes "GET") (bytes "/download") m
    then (do
      name ← filename_of m.request_url_path
      some (checked name (record m { cur_download_file = name })))
    else if asks (bytes "DELETE") (bytes "/delete") m
    then (do
      name ← filename_of m.request_url_path
      some (checked name (record m { cur_delete_file = name })))
    else if asks (bytes "POST") (bytes "/upload") m
    then some (set_boundary m)
    else some m

-- The answer to an upload, but for its body.
unfoldable pub upload_status : HttpMessageInfo → HttpMessageInfo
upload_status m = elim m.upload_fail_files [
  | [] ↦ answer (bytes "200") (bytes "OK") m
  | _ ∷ _ ↦ elim m.upload_success_files [
    | [] ↦ bad_request m
    | _ ∷ _ ↦ answer (bytes "207") (bytes "Multi-Status") m
  ]
]

abbrev pub header_lines : List (Bytes × Bytes) → Bytes
header_lines [] = []
header_lines ((k, v) ∷ m) = (((k ++ bytes ": ") ++ v) ++ sep) ++ header_lines m

unfoldable pub response_seralize : HttpMessageInfo → Bytes
response_seralize m =
    (m.response_version ++ 32 ∷ m.response_status ++ 32 ∷ m.response_status_describe ++ sep)
    ++ header_lines m.response_headers
    ++ sep
    ++ m.response_body

module _ (fs : FileSystem) (c : Settings) (now : fs.World → ℤ) where
  open fs use {World}

  -- A body comes in pieces; `none` would be a loop that does not end.
  unfoldable pub on_body : Bytes → Parse fs → Option (Parse fs)
  on_body at p =
      if not (is_empty p.info.response_status)
      then some p
      else if asks (bytes "POST") (bytes "/upload") p.info
      then (do
        (done, p') ←
            process_upload_body fs c now
              (record p { info = record p.info { request_body = p.info.request_body ++ at } })
        some (if done then p' else record p' { info = bad_request p'.info }))
      else some p

  -- process_delete_request; `none` is a fault.
  unfoldable pub process_delete_request : Parse fs → Option (Parse fs)
  process_delete_request p = do
    (done, d, w) ← delete_file fs c p.info.cur_delete_file p.manager p.world
    some (record {
      info = if done then answer (bytes "200") (bytes "OK") p.info else not_found p.info;
      manager = d;
      world = w;
    })
