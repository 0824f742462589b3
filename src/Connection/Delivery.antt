-- ===== src/Connection/Delivery.antt =====
-- HTTPconnection.hpp, sendFile: the tasks that it binds one after the other until a part of a file has
-- been sent.
use cloud_backup_system.Common.{
  ℕ, zero, suc, ◌+◌, ◌-◌, ◌%◌, ◌^◌, ◌<◌, ◌≤◌, ◌≡◌, ◌≢◌, refl, true, false, none, some, Option,
  ◌>>=◌, [], ◌++◌, Bytes, pos, ltb, ltb_ℤ, min_ℤ, ◌+ℤ◌, ◌-ℤ◌, if◌then◌else◌, take, drop, length,
  ◌==◌, arith, inl, inr, Bool-cases, take-plus, drop-plus, append_assoc, append-nil, ◌∙◌, ap, ==-ne,
  ltb→lt,
}
use cloud_backup_system.Path.{Env}
use cloud_backup_system.FileUtil.{FileSystem, get_content}
use cloud_backup_system.Node.{Ptr, null}
use cloud_backup_system.DataManager.{DataManager, target_file, to_u64}
use cloud_backup_system.Config.{Config, settings_of}
use cloud_backup_system.Download.{handle, send}
use cloud_backup_system.Connection.{Session, notify_new_message_need_send}
use cloud_backup_system.Upload.Find.{length-drop, length-take}
use cloud_backup_system.Connection.Tasks.{file_of, next_piece, cached_piece, read_piece, send_piece}

-- A file at a path holds a text.
pub record Holds (fs : FileSystem) (f : Bytes) (text : Bytes) (w : fs.World) : Type 0 where
  pub opens : fs.open_read f w ≡ true
  pub size : fs.stat f w ≡ some (length text)
  pub reads :
      (start n : ℕ)
      → start + n ≤ length text
      → fs.read f start n w ≡ some (take n (drop start text))

get_content-Holds :
    (fs : FileSystem) (f text : Bytes) (w : fs.World) (start n : ℕ)
    → Holds fs f text w
    → start + n ≤ length text
    → 0 < n
    → get_content fs f start n w ≡ some (take n (drop start text))
unfolding get_content
get_content-Holds fs f text w start n h fits some_bytes =
    ground (arith, h.opens, h.size, h.reads start n fits)

module _ (fs : FileSystem) (env : Env) (c : Config) (id : Bytes) where
  -- `sendFile` as long as it binds itself.
  unfoldable pub deliver : ℕ → Session fs → Option (Session fs)
  unfolding send_piece
  deliver zero s = none
  deliver (suc fuel) s = elim s.sub_task [
    | none ↦ some s
    | some t ↦ elim t [
      | handle ↦ some s
      | send p start end ↦ do
        (going, s') ← send_piece fs env c id p start end (record s { sub_task = none })
        deliver fuel s'
    ]
  ]

  -- The session after a piece from `start` on has been put into the buffer.
  abbrev pub after_piece : Ptr → ℕ → ℕ → Bytes → DataManager → Session fs → Session fs
  after_piece p start end piece d s =
      let sent : Session fs = notify_new_message_need_send fs id (record s {
        parse = record s.parse { manager = d };
        response_buffer = s.response_buffer ++ piece;
      }) in
      if ltb (start + length piece) end
      then record sent { sub_task = some (send p (pos (start + length piece)) (pos end)) }
      else sent

  module _ (p : Ptr) (start end : ℕ) (piece : Bytes) (d : DataManager) (s : Session fs) where
    pub parse-after : (after_piece p start end piece d s).parse ≡ record s.parse { manager = d }
    unfolding notify_new_message_need_send
    parse-after = ground arith

    pub bound-after :
        ltb (start + length piece) end ≡ true
        → (after_piece p start end piece d s).sub_task
          ≡ some (send p (pos (start + length piece)) (pos end))
    bound-after going = rw going refl

  send_piece_sends :
      (p : Ptr) (start end : ℕ) (piece : Bytes) (d : DataManager) (s : Session fs)
      → p ≢ null
      → start < end
      → next_piece fs env c p (pos start) (pos end) s.parse.manager s.parse.world
        ≡ some (some piece, d)
      → send_piece fs env c id p (pos start) (pos end) s
        ≡ some (true, after_piece p start end piece d s)
  unfolding send_piece
  send_piece_sends p start end piece d s p0 more got =
      let here : (p == null) ≡ false = ==-ne p null p0 in
      let open_yet : ltb_ℤ (pos start) (pos end) ≡ true = ground arith in
      let n : ℕ = length piece in
      let sum : pos start +ℤ pos n ≡ pos (start + n) = ground arith in
      let test : ltb_ℤ (pos (start + n)) (pos end) ≡ ltb (start + n) end = ground arith in
      rw (here, open_yet, got, sum, test) refl

  -- `deliver` comes to an end with `rest` behind the bytes in the buffer, and with no task.
  pub record Delivered (s : Session fs) (fuel : ℕ) (rest : Bytes) : Type 0 where
    pub state : Session fs
    pub runs : deliver fuel s ≡ some state
    pub sent : state.response_buffer ≡ s.response_buffer ++ rest
    pub done : state.sub_task ≡ none

  module _ (name text : Bytes) (w : fs.World) (limit : ℕ)
      (holds : Holds fs (target_file (settings_of env c) name) text w) (positive : 0 < limit)
      (small : length text < 2 ^ 63) (limited : c.max_file_read_size ≡ pos limit) where
    -- The bytes of one read.
    abbrev pub chunk : ℕ → ℕ → ℕ
    chunk start end = if ltb (end - start) limit then end - start else limit

    read_size :
        (start end : ℕ)
        → start < end
        → min_ℤ c.max_file_read_size (pos end -ℤ pos start) ≡ pos (chunk start end)
    read_size start end h = rw limited (ground arith)

    pub content_at :
        (start end : ℕ)
        → start < end
        → end ≤ length text
        → get_content fs
            (target_file (settings_of env c) name)
            (to_u64 (pos start))
            (to_u64 (min_ℤ c.max_file_read_size (pos end -ℤ pos start)))
            w
          ≡ some (take (chunk start end) (drop start text))
    content_at start end h fits =
        let n : ℕ = chunk start end in
        let in_range : n ≤ end - start = ground arith in
        let start_u : start % 2 ^ 64 ≡ start = omega arith in
        let n_u : n % 2 ^ 64 ≡ n = omega (arith, in_range) in
        rw (read_size start end h, start_u, n_u)
          (get_content-Holds fs (target_file (settings_of env c) name) text w start n holds
            (omega (arith, in_range)) (ground arith))

    next_piece_later :
        (p : Ptr) (start end : ℕ) (d : DataManager)
        → file_of fs env c d p ≡ name
        → 0 < start
        → start < end
        → end ≤ length text
        → next_piece fs env c p (pos start) (pos end) d w
          ≡ some (some (take (chunk start end) (drop start text)), d)
    unfolding next_piece cached_piece read_piece
    next_piece_later p zero end d e h k fits = absurd (omega arith)
    next_piece_later p (suc start) end d e h k fits =
        let got : get_content fs (target_file (settings_of env c) (d.heap p).info.filename)
              (to_u64 (pos (suc start)))
              (to_u64 (min_ℤ c.max_file_read_size (pos end -ℤ pos (suc start)))) w
            ≡ some (take (chunk (suc start) end) (drop (suc start) text)) =
          rw e (content_at (suc start) end k fits) in
        ground (arith, got)

    -- What a piece leaves of a part.
    pub split_part :
        (start end n : ℕ)
        → n ≤ end - start
        → take (end - start) (drop start text)
          ≡ take n (drop start text) ++ take (end - (start + n)) (drop (start + n) text)
    split_part start end n h =
        let sum : end - start ≡ n + (end - (start + n)) = omega (arith, h) in
        rw (sum, drop-plus start n text) (take-plus n (end - (start + n)) (drop start text))

    -- One piece more, at the front of what is sent.
    pub deliver_piece :
        (fuel : ℕ) (p : Ptr) (start end : ℕ) (piece rest : Bytes) (d : DataManager) (s : Session fs)
        → p ≢ null
        → s.sub_task ≡ some (send p (pos start) (pos end))
        → start < end
        → next_piece fs env c p (pos start) (pos end) s.parse.manager s.parse.world
          ≡ some (some piece, d)
        → Delivered (after_piece p start end piece d (record s { sub_task = none })) fuel rest
        → Delivered s (suc fuel) (piece ++ rest)
    unfolding deliver notify_new_message_need_send
    deliver_piece fuel p start end piece rest d s p0 bound more got r =
        let clean : Session fs = record s { sub_task = none } in
        let step = send_piece_sends p start end piece d clean p0 more got in
        let grown : (after_piece p start end piece d clean).response_buffer
            ≡ s.response_buffer ++ piece =
          ground arith in
        record {
          state = r.state;
          runs = rw (bound, step) r.runs;
          sent = r.sent ∙ rw grown (append_assoc s.response_buffer piece rest);
          done = r.done;
        }

    -- The whole part has been sent with a piece.
    pub deliver_last :
        (fuel : ℕ) (p : Ptr) (start end : ℕ) (piece : Bytes) (d : DataManager) (s : Session fs)
        → ltb (start + length piece) end ≡ false
        → s.sub_task ≡ none
        → Delivered (after_piece p start end piece d s) (suc fuel) []
    unfolding deliver notify_new_message_need_send
    deliver_last fuel p start end piece d s finished unbound = record {
      state = after_piece p start end piece d s;
      runs = rw (finished, unbound) refl;
      sent = rw (append-nil (after_piece p start end piece d s).response_buffer) refl;
      done = rw (finished, unbound) refl;
    }

    -- `sendFile` from a place behind the start of the file on.
    pub deliver_later :
        (fuel : ℕ) (p : Ptr) (start end : ℕ) (s : Session fs)
        → p ≢ null
        → file_of fs env c s.parse.manager p ≡ name
        → s.parse.world ≡ w
        → s.sub_task ≡ some (send p (pos start) (pos end))
        → 0 < start
        → start < end
        → end ≤ length text
        → suc (end - start) ≤ fuel
        → Delivered s fuel (take (end - start) (drop start text))
    unfolding notify_new_message_need_send
    deliver_later zero p start end s p0 e at bound later more fits enough = absurd (omega arith)
    deliver_later (suc zero) p start end s p0 e at bound later more fits enough =
        absurd (omega arith)
    deliver_later (suc (suc fuel)) p start end s p0 e world bound later more fits enough =
        let n : ℕ = chunk start end in
        let piece : Bytes = take n (drop start text) in
        let clean : Session fs = record s { sub_task = none } in
        let d : DataManager = s.parse.manager in
        let room : n ≤ end - start = ground arith in
        let some_bytes : 0 < n = ground arith in
        let size : length piece ≡ n =
          length-take n (drop start text) (omega (arith, length-drop start text, room)) in
        let got : next_piece fs env c p (pos start) (pos end) d s.parse.world
            ≡ some (some piece, d) =
          rw world (next_piece_later p start end d e later more fits) in
        let rest : Bytes = take (end - (start + n)) (drop (start + n) text) in
        let r : Delivered (after_piece p start end piece d clean) (suc fuel) rest =
          elim (Bool-cases (ltb (start + n) end)) [
            | inl going ↦
                let next : Session fs = after_piece p start end piece d clean in
                let same : next.parse ≡ s.parse = parse-after p start end piece d clean in
                let rebound : next.sub_task ≡ some (send p (pos (start + n)) (pos end)) =
                  bound-after p start end piece d clean (rw size going)
                  ∙ ap (λ k. some (send p (pos (start + k)) (pos end))) size in
                deliver_later (suc fuel) p (start + n) end next p0 (rw same e) (rw same world)
                  rebound (omega (arith, later)) (ltb→lt (start + n) end going) fits
                  (omega (arith, enough, some_bytes, room))
            | inr finished ↦
                let none_left : end - (start + n) ≡ 0 = ground arith in
                rw none_left (deliver_last fuel p start end piece d clean (rw size finished) refl)
          ] in
        rw (split_part start end n room)
          (deliver_piece (suc fuel) p start end piece rest d s p0 bound more got r)
