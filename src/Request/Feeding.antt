-- ===== src/Request/Feeding.antt =====
-- HTTPconnection.hpp: the pieces of an upload one after the other, from its head on.
use cloud_backup_system.Common.{
  ◌<◌, ◌≡◌, refl, ap, subst, true, false, ◌⊎◌, Option, none, some, ◌>>=◌, List, [], ◌∷◌, ◌++◌,
  arith, Bytes, bytes, ℤ, length, length-append, append_assoc, append-nil, inl, inr, ◌∙◌,
}
use cloud_backup_system.Node.{Ptr}
use cloud_backup_system.Path.{is_empty}
use cloud_backup_system.FileUtil.{FileSystem}
use cloud_backup_system.DataManager.{Settings, target_file}
use cloud_backup_system.DataManager.Cache.{Cache}
use cloud_backup_system.Upload.{
  HttpMessageInfo, Parse, find, sep, is_long, rounds, upload_loop, process_upload_body,
}
use cloud_backup_system.Upload.Inv.{Ok}
use cloud_backup_system.Upload.Flow.{Appends, Same, Filling, Filled, ending}
use cloud_backup_system.Upload.Rounds.{
  is_dashed, Called, upload_loop-Filling, Passed, upload_loop-Filled,
}
use cloud_backup_system.Request.{on_body, asks}
use cloud_backup_system.Request.Body.{Handled, on_body-Handled}

-- The text of the pieces.
abbrev pub joined : List Bytes → Bytes
joined [] = []
joined (s ∷ ss) = s ++ joined ss

module _ (fs : FileSystem) (c : Settings) (now : fs.World → ℤ) where
  open fs use {World}

  -- The calls of the parser for the pieces of a body.
  abbrev pub feed : List Bytes → Parse fs → Option (Parse fs)
  feed [] p = some p
  feed (s ∷ ss) p = do q ← on_body fs c now s p; feed ss q

module _ (fs : FileSystem) (c : Settings) (now : fs.World → ℤ) (m : HttpMessageInfo)
    (text : fs.World → Bytes) (total tail : Bytes) (dashed : is_dashed m.body_boundary ≡ true)
    (last_part : find (sep ++ sep) (m.body_boundary ++ tail) ≡ none)
    (open_file : is_empty m.cur_upload_file ≡ false)
    (appends : Appends fs (target_file c m.cur_upload_file) text)
    (upload : asks (bytes "POST") (bytes "/upload") m ≡ true)
    (unanswered : is_empty m.response_status ≡ true) where
  open fs use {World}

  -- Between two pieces.
  unfoldable pub Phase : Parse fs → Bytes → Type 0
  Phase p future =
      Filled fs c now m text total tail p future
      ⊎ ((rest : Bytes) × Filling fs c now m text total tail p future rest
          × (is_long p.info ≡ false))

  abbrev longer : Bytes → Parse fs → Parse fs
  longer s p = record p { info = record p.info { request_body = p.info.request_body ++ s } }

  -- A piece goes to the loop, whose state it keeps.
  on_body-loop :
      (s : Bytes) (p q : Parse fs)
      → Same m p.info
      → upload_loop fs c now (rounds (longer s p).info) (longer s p) ≡ some (true, q)
      → on_body fs c now s p ≡ some q
  unfolding on_body process_upload_body
  on_body-loop s p q same run =
      let ask : asks (bytes "POST") (bytes "/upload") p.info ≡ true =
        rw (same.method, same.prefix) upload in
      let waits : is_empty p.info.response_status ≡ true = rw same.status unanswered in
      rw (on_body, waits, ask, run)

  on_body-Phase :
      (s : Bytes) (p : Parse fs) (future : Bytes)
      → Phase p (s ++ future)
      → (q : Parse fs) × (on_body fs c now s p ≡ some q) × Phase q future
  unfolding Phase
  on_body-Phase s p future (inl v) =
      let r : Passed fs c now m text total tail dashed last_part (rounds (longer s p).info)
          (longer s p) future =
        upload_loop-Filled fs c now m text total tail dashed last_part (rounds (longer s p).info)
          (longer s p) future
          (record {
            same = record {
              boundary = v.same.boundary;
              method = v.same.method;
              prefix = v.same.prefix;
              status = v.same.status;
              fails = v.same.fails;
            };
            closed = v.closed;
            done = v.done;
            broken = v.broken;
            body = append_assoc p.info.request_body s future ∙ v.body;
            written = v.written;
          })
          (omega arith) in
      (r.state, on_body-loop s p r.state v.same r.runs, inl r.filled)
  on_body-Phase s p future (inr (rest, v, short)) =
      let r : Called fs c now m text total tail dashed last_part (rounds (longer s p).info)
          (longer s p) future =
        upload_loop-Filling fs c now m text total tail dashed last_part open_file appends
          (rounds (longer s p).info) (longer s p) future rest
          (record {
            same = record {
              boundary = v.same.boundary;
              method = v.same.method;
              prefix = v.same.prefix;
              status = v.same.status;
              fails = v.same.fails;
            };
            at_hand = v.at_hand;
            done = v.done;
            body = append_assoc p.info.request_body s future ∙ v.body;
            found = rw (append_assoc p.info.request_body s future) v.found;
            written = v.written;
          })
          (ground arith) in
      (r.state, on_body-loop s p r.state v.same r.runs, r.phase)

  -- The outcome of the pieces of a file's bytes.
  pub record Streamed (xs : List Ptr) (cached : Cache) (pieces : List Bytes) (p : Parse fs)
      : Type 0 where
    pub state : Parse fs
    pub runs : feed fs c now pieces p ≡ some state
    pub ok : Ok fs xs cached state
    pub filled : Filled fs c now m text total tail state []

  pub feed-Streamed :
      (xs : List Ptr) (cached : Cache) (pieces : List Bytes) (p : Parse fs)
      → 0 < length tail
      → Ok fs xs cached p
      → Phase p (joined pieces)
      → Streamed xs cached pieces p
  unfolding Phase
  feed-Streamed xs cached [] p more ok (inl v) = record {
    state = p;
    runs = refl;
    ok = ok;
    filled = v;
  }
  feed-Streamed xs cached [] p more ok (inr (rest, v, short)) = absurd (
      ground (
        arith,
        ap length v.body,
        append-nil p.info.request_body,
        ap length v.same.boundary,
        length-append rest (ending fs c now m text total tail ++ tail),
        length-append m.body_boundary tail,
      ))
  feed-Streamed xs cached (s ∷ pieces) p more ok ph =
      let (q, run, ph') = on_body-Phase s p (joined pieces) ph in
      let h : Handled fs c now xs cached s p = on_body-Handled fs c now xs cached s p ok in
      let same : h.state ≡ q = cc (h.runs, run) in
      let r : Streamed xs cached pieces q =
        feed-Streamed xs cached pieces q more (subst (Ok fs xs cached) same h.ok) ph' in
      record { state = r.state; runs = rw run r.runs; ok = r.ok; filled = r.filled }
