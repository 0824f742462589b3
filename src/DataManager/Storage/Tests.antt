-- ===== src/DataManager/Storage/Tests.antt =====
-- A store of the table, a start from it, and the check of the files at the start.
use cloud_backup_system.Common.{
  ℕ, refl, false, some, List, [], ◌∷◌, ◌++◌, arith, Bytes, bytes, ℤ, pos, negsuc, ◌==◌,
  if◌then◌else◌,
}
use cloud_backup_system.Node.{Heap, BackupInfoNode}
use cloud_backup_system.Path.{
  file_path, path_transform, is_path, apply_segments, apply_segment, add_segment,
}
use cloud_backup_system.FileUtil.{exists, scan_directory}
use cloud_backup_system.DataManager.{DataManager}
use cloud_backup_system.DataManager.Inv.{Inv}
use cloud_backup_system.DataManager.Tests.{disk, settings, files}
use cloud_backup_system.DataManager.Storage.{Json, load_items}
use cloud_backup_system.DataManager.Storage.Load.{load_items-Inv}
use cloud_backup_system.DataManager.Storage.Verify.{Verified, verify_file_legality-Verified}

abbrev sign : ℤ → ℕ
sign (pos n) = n
sign (negsuc n) = 0

-- Each entry is its name, a zero, its size and its time.
abbrev pub encode : List BackupInfoNode → Bytes
encode [] = []
encode (i ∷ is) = i.filename ++ 0 ∷ sign i.size ∷ sign i.time ∷ encode is

abbrev info : Bytes → ℕ → ℕ → BackupInfoNode
info name size time = record { filename = name; size = pos size; time = pos time }

abbrev pub decode : Bytes → Bytes → List BackupInfoNode
decode name [] = []
decode name (c ∷ []) = []
decode name (c ∷ d ∷ []) = []
decode name (c ∷ d ∷ e ∷ cs) =
    if c == 0 then info name d e ∷ decode [] cs else decode (name ++ c ∷ []) (d ∷ e ∷ cs)

abbrev pub fresh : DataManager
fresh = record {
  hash = [];
  heap = λ p. record {
    info = info [] 0 0;
    file_pre_content = [];
    next = if p == 1 then 1 else 0;
    prev = if p == 1 then 1 else 0;
  };
  list = record { size = 0; capacity = 2; guard = 1 };
  is_dirty = false;
  next_node = 2;
}

pub fresh-Inv : Inv fresh []
fresh-Inv = record {
  lru = record {
    list = record {
      chain = ground arith;
      distinct = ground arith;
      no_guard = refl;
      no_null = refl;
      counted = refl;
      loose = λ x m. ground arith;
      uncached = λ x m. ground arith;
    };
    bounded = omega arith;
    small = omega arith;
  };
  unique = tt;
  guard_old = omega arith;
  live = λ name p e p0. cc;
  listed = λ q m. cc;
}

abbrev blank : Heap
blank p = record { info = info [] 0 0; file_pre_content = []; next = 0; prev = 0 }

abbrev pub stored : Bytes
stored = bytes "x" ++ 0 ∷ 2 ∷ 5 ∷ bytes "y" ++ 0 ∷ 1 ∷ 5 ∷ []

abbrev known : DataManager
known = load_items (info (bytes "x") 2 5 ∷ info (bytes "gone") 1 5 ∷ []) fresh

verify_file_legality_example : Verified disk known settings files (bytes "/b/x" ∷ bytes "/b/y" ∷ [])
unfolding scan_directory exists file_path path_transform is_path apply_segments apply_segment
    add_segment
verify_file_legality_example =
    verify_file_legality-Verified disk known settings files (bytes "/b/x" ∷ bytes "/b/y" ∷ [])
      (load_items-Inv (info (bytes "x") 2 5 ∷ info (bytes "gone") 1 5 ∷ []) fresh fresh-Inv) refl

abbrev table_json : Json
table_json = record {
  serialize = λ infos. some (encode infos);
  deserialize = λ text. some (decode [] text);
}
