-- ===== src/Upload/Inv.antt =====
-- What holds between the rounds of the loop, and how far a body is read.
use cloud_backup_system.Common.{
  ℕ, ◌+◌, ◌*◌, ◌≡◌, refl, Bool, true, false, ◌&&◌, List, [], ◌∷◌, ◌++◌, arith, Bytes, bytes_eq,
  bytes_eq→eq, if◌then◌else◌, length, inl, inr, Bool-cases,
}
use cloud_backup_system.Node.{Ptr}
use cloud_backup_system.Path.{is_empty}
use cloud_backup_system.FileUtil.{FileSystem}
use cloud_backup_system.DataManager.{DataManager}
use cloud_backup_system.DataManager.Inv.{Inv, Status, absent, registered, uploaded, status}
use cloud_backup_system.DataManager.Insert.{is_registered}
use cloud_backup_system.DataManager.Register.{is_uploaded}
use cloud_backup_system.DataManager.Cache.{Cache, view}
use cloud_backup_system.Upload.{HttpMessageInfo, Parse, Round, next, leave}

-- Every name of a list is that of an uploaded file.
abbrev pub all_uploaded : DataManager → List Bytes → Bool
all_uploaded d [] = true
all_uploaded d (f ∷ fs) = is_uploaded (status d f) && all_uploaded d fs

-- The file at hand is registered and not uploaded yet, and those reported as done are uploaded.
pub record Ok (fs : FileSystem) (xs : List Ptr) (cached : Cache) (p : Parse fs) : Type 0 where
  pub valid : Inv p.manager xs
  pub held :
      (if is_empty p.info.cur_upload_file
        then true
        else is_registered (status p.manager p.info.cur_upload_file))
      ≡ true
  pub done : all_uploaded p.manager p.info.upload_success_files ≡ true
  pub cache : view p.manager.heap xs ≡ cached

-- Each round takes off from it.
abbrev pub left : HttpMessageInfo → ℕ
left m = 2 * length m.request_body + (if is_empty m.cur_upload_file then 0 else 1)

-- The state that a round gives.
abbrev pub after : {fs : FileSystem} → Round fs → Parse fs
after (next p) = p
after (leave b p) = p

abbrev pub goes_on : {fs : FileSystem} → Round fs → Bool
goes_on (next p) = true
goes_on (leave b p) = false

-- The uploaded files stay that where only the status of a name that is not uploaded changes.
pub all_uploaded_stays :
    (d e : DataManager) (name : Bytes) (fs : List Bytes)
    → is_uploaded (status d name) ≡ false
    → ((g : Bytes) → bytes_eq name g ≡ false → status e g ≡ status d g)
    → all_uploaded d fs ≡ true
    → all_uploaded e fs ≡ true
all_uploaded_stays d e name [] idle same h = refl
all_uploaded_stays d e name (f ∷ fs) idle same h = elim (Bool-cases (bytes_eq name f)) [
  | inl is ↦ absurd (ground (arith, bytes_eq→eq name f is))
  | inr other ↦ ground (arith, same f other, all_uploaded_stays d e name fs idle same)
]

pub all_uploaded-append :
    (d : DataManager) (fs : List Bytes) (f : Bytes)
    → all_uploaded d (fs ++ f ∷ []) ≡ (all_uploaded d fs && is_uploaded (status d f))
all_uploaded-append d [] f = ground arith
all_uploaded-append d (g ∷ fs) f = ground (arith, all_uploaded-append d fs f)

pub registered_not_uploaded : (s : Status) → is_registered s ≡ true → is_uploaded s ≡ false
registered_not_uploaded absent h = cc
registered_not_uploaded registered h = refl
registered_not_uploaded (uploaded i) h = cc

pub all_uploaded_same :
    (d e : DataManager) (fs : List Bytes)
    → ((g : Bytes) → status e g ≡ status d g)
    → all_uploaded e fs ≡ all_uploaded d fs
all_uploaded_same d e [] same = refl
all_uploaded_same d e (f ∷ fs) same = rw (same f, all_uploaded_same d e fs same)
