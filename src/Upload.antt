-- ===== src/Upload.antt =====
-- HTTPconnection.hpp, lines 338 to 420: the parser of the bodies of uploads, which gets a body piece
-- by piece and writes the files as their bytes come in. Positions are taken to fit an `int`.
pub mod Dropped
pub mod Find
pub mod Search
pub mod Inv
pub mod Head
pub mod Content
pub mod Loop
pub mod Flow
pub mod Rounds
mod Tests
use cloud_backup_system.Common.{
  ℕ, zero, suc, ◌+◌, ◌-◌, ◌*◌, Bool, true, false, not, ◌||◌, Option, none, some, List, [], ◌∷◌,
  ◌++◌, Bytes, bytes, bytes_eq, ℤ, ltb, ◌==◌, if◌then◌else◌, length, take, drop,
}
use cloud_backup_system.Path.{is_empty, check_filename}
use cloud_backup_system.FileUtil.{FileSystem, append_content}
use cloud_backup_system.FileUtil
use cloud_backup_system.DataManager.{
  DataManager, Settings, register, deregister, insert_file, target_file,
}

-- HTTPMessageInfo.
pub record HttpMessageInfo : Type 0 where
  pub request_method : Bytes
  pub request_url : Bytes
  pub request_url_prefix : Bytes
  pub request_url_path : Bytes
  pub request_version : Bytes
  pub request_cur_header_field : Bytes
  pub request_cur_header_value : Bytes
  pub request_headers : List (Bytes × Bytes)
  pub request_body : Bytes
  pub body_boundary : Bytes
  pub cur_upload_file : Bytes
  pub upload_success_files : List Bytes
  pub upload_fail_files : List Bytes
  pub cur_download_file : Bytes
  pub cur_delete_file : Bytes
  pub response_version : Bytes
  pub response_status : Bytes
  pub response_status_describe : Bytes
  pub response_headers : List (Bytes × Bytes)
  pub response_body : Bytes

-- `clear`.
abbrev pub cleared : HttpMessageInfo
cleared = record {
  request_method = [];
  request_url = [];
  request_url_prefix = [];
  request_url_path = [];
  request_version = [];
  request_cur_header_field = [];
  request_cur_header_value = [];
  request_headers = [];
  request_body = [];
  body_boundary = [];
  cur_upload_file = [];
  upload_success_files = [];
  upload_fail_files = [];
  cur_download_file = [];
  cur_delete_file = [];
  response_version = [];
  response_status = [];
  response_status_describe = [];
  response_headers = [];
  response_body = [];
}

abbrev pub sep : Bytes
sep = 13 ∷ 10 ∷ []

abbrev pub is_prefix : Bytes → Bytes → Bool
is_prefix [] s = true
is_prefix (n ∷ ns) [] = false
is_prefix (n ∷ ns) (c ∷ cs) = if n == c then is_prefix ns cs else false

abbrev pub one_more : Option ℕ → Option ℕ
one_more none = none
one_more (some i) = some (suc i)

-- `s.find(needle)`.
unfoldable pub find : Bytes → Bytes → Option ℕ
find needle [] = if is_prefix needle [] then some 0 else none
find needle (c ∷ cs) =
    let later = one_more (find needle cs) in if is_prefix needle (c ∷ cs) then some 0 else later

abbrev pub filename_key : Bytes
filename_key = bytes "filename=\""

module _ (fs : FileSystem) where
  open fs use {World}

  -- The state of the parser with the manager and the disk.
  pub record Parse : Type 0 where
    pub info : HttpMessageInfo
    pub manager : DataManager
    pub world : World

  -- A round of the loop goes on, or leaves the function with a value.
  pub data Round : Type 0 where
    next : Parse → Round
    leave : Bool → Parse → Round

abbrev pub quote_sign : Bytes
quote_sign = b'"' ∷ []

-- `s.find(needle, from)`, where it is looked for in a part that starts at `from`.
abbrev pub find_from : Bytes → ℕ → Bytes → Option ℕ
find_from needle from s = elim (find needle (drop from s)) [
  | none ↦ none
  | some i ↦ some (from + i)
]

-- The name in the head of a part that ends at `head_end`.
unfoldable pub head_filename : ℕ → Bytes → Option Bytes
head_filename head_end body = elim (find filename_key body) [
  | none ↦ none
  | some at ↦
      if ltb head_end at
      then none
      else let start : ℕ = at + length filename_key in
        elim (find_from quote_sign start body) [
          | none ↦ none
          | some stop ↦
              if ltb head_end stop then none else some (take (stop - start) (drop start body))
        ]
]

-- What of the body is written to the file at hand, given where its end was found.
abbrev pub file_content : HttpMessageInfo → Option ℕ → Bytes
file_content m none =
    take (length m.request_body - length m.body_boundary - length sep) m.request_body
file_content m (some at) = take at m.request_body

-- The condition of the loop.
abbrev pub is_long : HttpMessageInfo → Bool
is_long m = ltb (length m.body_boundary + length sep) (length m.request_body)

-- The rounds that the loop is given.
abbrev pub rounds : HttpMessageInfo → ℕ
rounds m = 2 * length m.request_body + 2

module _ (fs : FileSystem) (c : Settings) (now : fs.World → ℤ) where
  open fs use {World}

  -- The head of a part has been read: its name is registered, or fails.
  unfoldable pub open_file : Bytes → Parse fs → Round fs
  open_file name p =
      let m = p.info in
      let (done, d, w) =
        if check_filename name
        then register fs c name p.manager p.world
        else (false, p.manager, p.world) in
      next (record {
        info = if done then record m { cur_upload_file = name } else record m {
          cur_upload_file = [];
          upload_fail_files = m.upload_fail_files ++ name ∷ [];
        };
        manager = d;
        world = w;
      })

  -- A round without a file at hand.
  unfoldable pub read_head : Parse fs → Round fs
  unfolding find head_filename
  read_head p =
      let m = p.info in
      elim (find m.body_boundary m.request_body) [
        | none ↦
            let size = length m.request_body in
            let keep = length m.body_boundary in
            next (record p {
              info = record m {
                request_body =
                    if ltb keep size then drop (size - keep) m.request_body else m.request_body;
              };
            })
        | some at ↦
            let body = drop at m.request_body in
            let found = record p { info = record m { request_body = body } } in
            elim (find (sep ++ sep) body) [
              | none ↦ leave true found
              | some head_end ↦ elim (head_filename head_end body) [
                | none ↦ leave false found
                | some name ↦ open_file name (record p {
                  info = record m { request_body = drop (head_end + length sep * 2) body };
                })
              ]
            ]
      ]

  -- The bytes could not be written.
  unfoldable pub fail_file : Parse fs → Round fs
  fail_file p =
      let m = p.info in
      let (_, d, w) = deregister fs c m.cur_upload_file p.manager p.world in
      next (record {
        info = record m {
          cur_upload_file = [];
          upload_fail_files = m.upload_fail_files ++ m.cur_upload_file ∷ [];
        };
        manager = d;
        world = w;
      })

  -- The file at hand is complete.
  unfoldable pub finish_file : Parse fs → Round fs
  finish_file p =
      let m = p.info in
      let size = FileUtil.get_file_size fs (target_file c m.cur_upload_file) p.world in
      let (_, d) = insert_file m.cur_upload_file size (now p.world) p.manager in
      next (record p {
        info = record m {
          cur_upload_file = [];
          upload_success_files = m.upload_success_files ++ m.cur_upload_file ∷ [];
        };
        manager = d;
      })

  -- What follows the write: whether it worked, and where the end of the file was found.
  unfoldable pub settle : Bool → Option ℕ → Parse fs → Round fs
  settle false end p = fail_file p
  settle true none p = next p
  settle true (some at) p = finish_file p

  -- A round with a file at hand.
  unfoldable pub read_content : Parse fs → Round fs
  unfolding find
  read_content p =
      let m = p.info in
      let end = find (sep ++ m.body_boundary) m.request_body in
      let content = file_content m end in
      let rest = record m { request_body = drop (length content) m.request_body } in
      let (written, w) =
        if is_empty content
        then (true, p.world)
        else append_content fs (target_file c m.cur_upload_file) content p.world in
      let p' = record p { info = rest; world = w } in settle written end p'

  unfoldable pub round : Parse fs → Round fs
  unfolding read_head read_content
  round p = if is_empty p.info.cur_upload_file then read_head p else read_content p

  -- The loop, for `fuel` rounds at most; `none` where they were not enough.
  unfoldable pub upload_loop : ℕ → Parse fs → Option (Bool × Parse fs)
  unfolding round
  upload_loop zero p = none
  upload_loop (suc fuel) p = elim (is_long p.info) [
    | false ↦ some (true, p)
    | true ↦ elim (round p) [ next p' ↦ upload_loop fuel p' | leave b p' ↦ some (b, p') ]
  ]

  unfoldable pub process_upload_body : Parse fs → Option (Bool × Parse fs)
  unfolding upload_loop
  process_upload_body p = upload_loop (rounds p.info) p
