-- ===== src/Download/Tests.antt =====
-- Ranges of files, and a download of a part of a file.
use cloud_backup_system.Common.{
  ◌+◌, ◌≡◌, refl, some, [], ◌∷◌, ◌++◌, arith, bytes, pos, min_ℤ, to_string, to_string_ℤ, emit,
  stoll, skip_spaces, scan,
}
use cloud_backup_system.DataManager.Inv.{status}
use cloud_backup_system.DataManager.Tests.{manager, manager-Inv}
use cloud_backup_system.Upload.{HttpMessageInfo, cleared, find}
use cloud_backup_system.Download.{requested_range}
use cloud_backup_system.Download.Ranges.{requested_range-to_string}
use cloud_backup_system.Download.Promise.{Promised, process_download_request-Promised}

requested_range-to_string_example :
    (requested_range (to_string 10 ++ 45 ∷ []) (pos 50) ≡ some (pos 10, pos 50))
    × (requested_range (to_string 10 ++ 45 ∷ to_string 99) (pos 50)
        ≡ some (pos 10, min_ℤ (pos (99 + 1)) (pos 50)))
requested_range-to_string_example =
    requested_range-to_string 10 99 (pos 50) (omega arith) (omega arith)

abbrev asking : HttpMessageInfo
asking = record cleared {
  request_headers = (bytes "if-range", bytes "x-5-2") ∷ (bytes "range", bytes "bytes=1-1") ∷ [];
  cur_download_file = bytes "x";
}

process_download_request-Promised_example :
    Promised manager asking
      (record { filename = bytes "x"; size = pos 2; time = pos 5 })
      (pos 1)
      (pos 2)
unfolding status requested_range stoll skip_spaces scan find to_string_ℤ to_string emit
process_download_request-Promised_example =
    process_download_request-Promised manager (2 ∷ []) asking
      (record { filename = bytes "x"; size = pos 2; time = pos 5 }) (pos 1) (pos 2) manager-Inv refl
      refl
