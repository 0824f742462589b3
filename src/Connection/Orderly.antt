-- ===== src/Connection/Orderly.antt =====
-- HTTPconnection.hpp and cloud_backup_server.hpp: what holds of a connection after any steps.
use cloud_backup_system.Common.{
  ◌≡◌, ℕ, zero, suc, ◌≤◌, refl, Bool, true, false, ◌||◌, not, List, [], ◌∷◌, ◌++◌, Bytes, drop,
  length, arith, inl, inr, Bool-cases, is_some, length-append, append_assoc, append-nil,
}
use cloud_backup_system.Path.{is_empty}
use cloud_backup_system.FileUtil.{FileSystem}
use cloud_backup_system.Download.{handle}
use cloud_backup_system.Connection.{Llhttp, Connection, Work, task, parsed, looking}
use cloud_backup_system.Connection.Tasks.{receive, settle, leave_section, hand_over, handler_end}
use cloud_backup_system.Connection.Steps.{is_leaving, has_look}

-- What holds of the work, of whether a task is bound, the connection is being processed, is about to
-- leave, and of the bytes that are left, those that came and those that the parser took.
abbrev pub SoundWork : List Work → Bool → Bool → Bool → Bytes → Bytes → Bytes → Type 0
SoundWork [] bound busy leaving left r p =
    ((not busy || leaving) ≡ true) × ((busy || is_empty left) ≡ true) × (r ≡ p ++ left)
SoundWork (task t ∷ []) bound busy leaving left r p = (busy ≡ true) × (r ≡ p ++ left)
SoundWork (parsed n ∷ []) bound busy leaving left r p =
    (busy ≡ true) × (n ≤ length left) × (r ≡ p ++ drop n left)
SoundWork (looking ∷ []) bound busy leaving left r p =
    (busy ≡ bound) × ((bound || is_empty left) ≡ true) × (r ≡ p ++ left)
SoundWork (w ∷ v ∷ ws) bound busy leaving left r p = true ≡ false

module _ (fs : FileSystem) (ll : Llhttp) where
  abbrev pub Sound : Bytes → Bytes → Connection fs ll → Type 0
  Sound r p k =
      SoundWork k.work (is_some k.session.sub_task) k.is_processing (is_leaving fs ll k)
        k.request_buffer r p

  drop-append_le : (n : ℕ) (s t : Bytes) → n ≤ length s → drop n (s ++ t) ≡ drop n s ++ t
  drop-append_le zero s t h = refl
  drop-append_le (suc n) [] t h = absurd (omega arith)
  drop-append_le (suc n) (x ∷ s) t h = drop-append_le n s t (omega arith)

  receive_busy :
      (ws : List Work) (bound leaving : Bool) (left at r p : Bytes)
      → SoundWork ws bound true leaving left r p
      → SoundWork ws bound true leaving (left ++ at) (r ++ at) p
  receive_busy [] bound leaving left at r p (a, b, c) = (a, refl, rw c (append_assoc p left at))
  receive_busy (task t ∷ []) bound leaving left at r p (a, c) = (a, rw c (append_assoc p left at))
  receive_busy (parsed n ∷ []) bound leaving left at r p (a, b, c) = (
    a,
    omega (arith, length-append left at),
    rw (c, drop-append_le n left at b) (append_assoc p (drop n left) at),
  )
  receive_busy (looking ∷ []) true leaving left at r p (a, b, c) =
      (a, refl, rw c (append_assoc p left at))
  receive_busy (looking ∷ []) false leaving left at r p (a, b, c) = absurd (ground arith)
  receive_busy (w ∷ v ∷ ws) bound leaving left at r p h = h

  receive_idle :
      (ws : List Work) (bound leaving : Bool) (left at r p : Bytes)
      → SoundWork ws bound false leaving left r p
      → has_look fs ll ws ≡ false
      → SoundWork (task handle ∷ ws) bound true leaving (left ++ at) (r ++ at) p
  receive_idle [] bound leaving left at r p (a, b, c) q = (refl, rw c (append_assoc p left at))
  receive_idle (task t ∷ []) bound leaving left at r p (a, c) q = cc
  receive_idle (parsed n ∷ []) bound leaving left at r p (a, b, c) q = cc
  receive_idle (looking ∷ []) bound leaving left at r p h q = cc
  receive_idle (w ∷ v ∷ ws) bound leaving left at r p h q = h

  pub receive-Sound :
      (at r p : Bytes) (k : Connection fs ll)
      → Sound r p k
      → (k.is_processing || not (has_look fs ll k.work)) ≡ true
      → Sound (r ++ at) p (receive fs ll at k)
  unfolding receive
  receive-Sound at r p k v quiet = elim (Bool-cases k.is_processing) [
    | inl e ↦ rw e (
        receive_busy k.work (is_some k.session.sub_task) (is_leaving fs ll k) k.request_buffer at r
          p (rw e at v))
    | inr e ↦ rw e (
        receive_idle k.work (is_some k.session.sub_task) (is_leaving fs ll k) k.request_buffer at r
          p (rw e at v) (ground (arith, e, quiet)))
  ]

  -- A task has ended with all its bytes taken.
  pub leave_section-Sound :
      (r p : Bytes) (k : Connection fs ll)
      → k.work ≡ []
      → k.is_processing ≡ true
      → r ≡ p ++ k.request_buffer
      → Sound r p (leave_section fs ll k)
  unfolding leave_section settle
  leave_section-Sound r p k e busy whole = ground (arith, append-nil p)

  -- A thread has looked at `_sub_task`.
  pub hand_over-Sound :
      (r p : Bytes) (k : Connection fs ll)
      → SoundWork
          (looking ∷ [])
          (is_some k.session.sub_task)
          k.is_processing
          (is_leaving fs ll k)
          k.request_buffer
          r
          p
      → Sound r p (hand_over fs ll (record k { work = [] }))
  unfolding hand_over
  hand_over-Sound r p k (a, b, c) = ground (arith, a, b, c)

  -- The works of a connection are one: the one that is taken up.
  pub only_task :
      (xs ys ws : List Work) (w : Work) (bound busy leaving : Bool) (left r p : Bytes)
      → ws ≡ xs ++ w ∷ ys
      → SoundWork ws bound busy leaving left r p
      → (ws ≡ w ∷ []) × (xs ++ ys ≡ [])
  only_task [] [] ws w bound busy leaving left r p e h = (e, refl)
  only_task [] (y ∷ ys) ws w bound busy leaving left r p e h =
      let no : SoundWork (w ∷ y ∷ ys) bound busy leaving left r p = rw e at h in
      absurd (ground arith)
  only_task (x ∷ []) ys ws w bound busy leaving left r p e h =
      let no : SoundWork (x ∷ w ∷ ys) bound busy leaving left r p = rw e at h in
      absurd (ground arith)
  only_task (x ∷ y ∷ xs) ys ws w bound busy leaving left r p e h =
      let no : SoundWork (x ∷ y ∷ (xs ++ w ∷ ys)) bound busy leaving left r p = rw e at h in
      absurd (ground arith)

  pub handler_end-Sound :
      (n : ℕ) (r p : Bytes) (k : Connection fs ll)
      → SoundWork
          (parsed n ∷ [])
          (is_some k.session.sub_task)
          k.is_processing
          (is_leaving fs ll k)
          k.request_buffer
          r
          p
      → Sound r p (handler_end fs ll n (record k { work = [] }))
  unfolding handler_end
  handler_end-Sound n r p k (busy, fits, whole) =
      leave_section-Sound r p (record k { work = []; request_buffer = drop n k.request_buffer })
        refl busy whole
