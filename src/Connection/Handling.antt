-- ===== src/Connection/Handling.antt =====
-- HTTPconnection.hpp, handler up to its second critical section, and sendFile.
use cloud_backup_system.Common.{
  ◌≡◌, ℕ, zero, suc, ◌≤◌, refl, true, false, none, some, [], ◌∷◌, ◌++◌, Bytes, ℤ, ltb,
  if◌then◌else◌, take, drop, length, arith, inl, inr, Bool-cases, Option-cases, take-drop,
  append_assoc, append-nil, sym, ◌∙◌, ap, subst,
}
use cloud_backup_system.Path.{Env}
use cloud_backup_system.FileUtil.{FileSystem}
use cloud_backup_system.Node.{Ptr}
use cloud_backup_system.Config.{Config}
use cloud_backup_system.Download.{handle}
use cloud_backup_system.Reply.{AnswerJson}
use cloud_backup_system.Connection.{
  Verdict, ok, paused, failed, Llhttp, Session, Connection, parsed, run_events,
  notify_close_curent_connection,
}
use cloud_backup_system.Upload.Find.{length-take}
use cloud_backup_system.Connection.Orderly.{Sound, leave_section-Sound}
use cloud_backup_system.Connection.Tasks.{leave_section, handler_begin, send_piece, send_file}
use cloud_backup_system.Connection.Steps.{asked_close-notify, asked_close, eaten_by, given, eaten}

module _ (fs : FileSystem) (ll : Llhttp) where
  drop-take_more : (m n : ℕ) (s : Bytes) → m ≤ n → take m (take n s) ++ drop m s ≡ s
  drop-take_more zero n s h = refl
  drop-take_more (suc m) zero s h = absurd (omega arith)
  drop-take_more (suc m) (suc n) [] h = refl
  drop-take_more (suc m) (suc n) (x ∷ s) h = ap (◌∷◌ x) (drop-take_more m n s (omega arith))

  module _ (c : Config)
      (pauses : (s : Bytes) (q : ll.Parser) (at : ℕ)
        → (ll.execute s q).1 ≡ paused at
        → at ≤ length s) where
    -- The number of bytes that a call of the parser gets.
    abbrev part : Connection fs ll → ℕ
    part k =
        let size : ℕ = length k.request_buffer in
        let limit : ℕ = c.per_handle_request_size in if ltb limit size then limit else size

    part-le : (k : Connection fs ll) → part k ≤ length k.request_buffer
    part-le k = ground arith

    module _ (env : Env) (now : fs.World → ℤ) (json : AnswerJson) (id : Bytes) where
      -- The end of the first part of `handler`, given the parser's verdict.
      abbrev after : Connection fs ll → Session fs → ll.Parser → Verdict → Connection fs ll
      after k s q v =
          let k' : Connection fs ll = record k { session = s; parser = q } in
          elim v [
            | failed ↦ record k' { session = notify_close_curent_connection fs id s }
            | ok ↦ record k' { work = parsed (part k) ∷ k.work }
            | paused at ↦ record k' { work = parsed at ∷ k.work }
          ]

      after-Sound :
          (r p : Bytes) (k : Connection fs ll) (s : Session fs) (q : ll.Parser) (v : Verdict)
          → k.work ≡ []
          → k.is_processing ≡ true
          → r ≡ p ++ k.request_buffer
          → ((at : ℕ) → v ≡ paused at → at ≤ length (given fs ll c k))
          → Sound fs ll r (p ++ eaten_by fs ll c v (given fs ll c k)) (after k s q v)
      unfolding notify_close_curent_connection
      after-Sound r p k s q ok e busy whole fits =
          rw (e, busy)
            (
              refl,
              part-le k,
              whole
                  ∙ ap (λ t. p ++ t) (sym (take-drop (part k) k.request_buffer))
                  ∙ sym (
                      append_assoc p (take (part k) k.request_buffer)
                        (drop (part k) k.request_buffer)),
            )
      after-Sound r p k s q (paused at) e busy whole fits =
          let size : length (given fs ll c k) ≡ part k =
            length-take (part k) k.request_buffer (part-le k) in
          let inside : at ≤ part k = rw size at (fits at refl) in
          rw (e, busy)
            (
              refl,
              omega (arith, part-le k),
              whole
                  ∙ ap (λ t. p ++ t) (sym (drop-take_more at (part k) k.request_buffer inside))
                  ∙ sym (append_assoc p (take at (given fs ll c k)) (drop at k.request_buffer)),
            )
      after-Sound r p k s q failed e busy whole fits =
          rw (e, busy, append-nil p) (ground (arith, asked_close-notify id s.pipe), refl, whole)

      pub handler_begin-Sound :
          (r p : Bytes) (k k' : Connection fs ll)
          → k.work ≡ []
          → k.is_processing ≡ true
          → r ≡ p ++ k.request_buffer
          → handler_begin fs ll env c now json id k ≡ some k'
          → Sound fs ll r (p ++ eaten fs ll c handle k) k'
      unfolding handler_begin
      handler_begin-Sound r p k k' e busy whole runs = elim (Bool-cases k.is_closed) [
        | inl shut ↦
            let same : k ≡ k' = ground (arith, runs, shut) in
            rw (← same, shut, append-nil p, e, busy) (refl, refl, whole)
        | inr open_yet ↦
            let (events, verdict, q) = ll.execute (given fs ll c k) k.parser in
            let clean : Session fs = record k.session { sub_task = none } in
            elim (Option-cases (run_events fs env c now json id events clean)) [
              | inl fault ↦ absurd (ground (arith, runs, open_yet, fault))
              | inr (s, good) ↦
                  let same : after k s q verdict ≡ k' = ground (arith, runs, open_yet, good) in
                  let took : eaten_by fs ll c verdict (given fs ll c k) ≡ eaten fs ll c handle k =
                    rw (eaten, open_yet) refl in
                  subst (λ x. Sound fs ll r (p ++ x) k') took
                    (rw same at
                      (after-Sound r p k s q verdict e busy whole (λ at x. pauses _ k.parser at x)))
            ]
      ]

      send_piece-refused :
          (q : Ptr) (start end : ℤ) (s s' : Session fs)
          → send_piece fs env c id q start end s ≡ some (false, s')
          → asked_close s'.pipe ≡ true
      unfolding send_piece notify_close_curent_connection
      send_piece-refused q start end s s' runs = ground (arith, runs, asked_close-notify id s.pipe)

      pub send_file-Sound :
          (q : Ptr) (start end : ℤ) (r p : Bytes) (k k' : Connection fs ll)
          → k.work ≡ []
          → k.is_processing ≡ true
          → r ≡ p ++ k.request_buffer
          → send_file fs ll env c now json id q start end k ≡ some k'
          → Sound fs ll r p k'
      unfolding send_file
      send_file-Sound q start end r p k k' e busy whole runs = elim (Bool-cases k.is_closed) [
        | inl shut ↦
            let same : k ≡ k' = ground (arith, runs, shut) in
            rw (← same, shut, e, busy) (refl, refl, whole)
        | inr open_yet ↦
            let clean : Session fs = record k.session { sub_task = none } in
            elim (Option-cases (send_piece fs env c id q start end clean)) [
              | inl fault ↦ absurd (ground (arith, runs, open_yet, fault))
              | inr ((true, s), good) ↦
                  let same : leave_section fs ll (record k { session = s }) ≡ k' =
                    ground (arith, runs, open_yet, good) in
                  rw (← same)
                    (leave_section-Sound fs ll r p (record k { session = s }) e busy whole)
              | inr ((false, s), good) ↦
                  let same : record k { session = s } ≡ k' = ground (arith, runs, open_yet, good) in
                  let asked = send_piece-refused q start end clean s good in
                  rw (← same, e, busy) (ground (arith, asked), refl, whole)
            ]
      ]
