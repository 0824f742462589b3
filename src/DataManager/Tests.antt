-- ===== src/DataManager/Tests.antt =====
-- A disk, a text form of the table and a manager with two uploaded files, one of them cached, and a
-- registered one; runs on them.
use cloud_backup_system.Common.{
  ◌≡◌, bytes_eq_refl, ℕ, ◌-◌, refl, true, false, ◌||◌, none, some, List, [], ◌∷◌, ◌++◌, arith,
  Bytes, bytes, bytes_eq, bytes_eq→eq, pos, ◌==◌, if◌then◌else◌, is_some, length, take, drop, zero,
  suc,
}
use cloud_backup_system.Node.{Ptr, Heap, DataManagerNode}
use cloud_backup_system.FileUtil.{FileSystem}
use cloud_backup_system.DataManager.{
  lookup-insert, DataManager, Settings, lookup, insert, erase, insert_file, register,
}
use cloud_backup_system.DataManager.Inv.{Inv}
use cloud_backup_system.DataManager.Reads.{Read, get_refines}
use cloud_backup_system.DataManager.Writes.{Written, put_refines}
use cloud_backup_system.DataManager.Insert.{Inserted, insert_file-Inserted}
use cloud_backup_system.DataManager.Register.{Registered, register-Registered}

-- The text of the file at a path; the one directory is `/b`.
abbrev pub Disk : Type 0
Disk = List (Bytes × Bytes)

abbrev pub text_at : Bytes → Disk → Bytes
text_at f w = elim (lookup f w) [ none ↦ [] | some s ↦ s ]

pub text_at-insert : (f v : Bytes) (w : Disk) → text_at f (insert f v w) ≡ v
text_at-insert f v w = ground (arith, lookup-insert f f v w, bytes_eq_refl f)

abbrev pub drop_bytes : ℕ → Bytes → Bytes
drop_bytes n [] = []
drop_bytes n (c ∷ cs) = if n == 0 then c ∷ cs else drop_bytes (n - 1) cs

pub drop_bytes-drop : (n : ℕ) (s : Bytes) → drop_bytes n s ≡ drop n s
drop_bytes-drop zero [] = refl
drop_bytes-drop (suc n) [] = refl
drop_bytes-drop zero (c ∷ s) = refl
drop_bytes-drop (suc n) (c ∷ s) = ground (arith, drop_bytes-drop n s)

abbrev names_on : Disk → List Bytes
names_on [] = []
names_on ((f, s) ∷ w) = f ∷ names_on w

abbrev pub disk : FileSystem
disk = record {
  World = Disk;
  access = λ f w. bytes_eq f (bytes "/b") || is_some (lookup f w);
  stat = λ f w. elim (lookup f w) [ none ↦ none | some s ↦ some (length s) ];
  open_read = λ f w. is_some (lookup f w);
  read = λ f start n w. some (take n (drop_bytes start (text_at f w)));
  open_append = λ f w. some (insert f (text_at f w) w);
  write = λ f s w. (true, insert f (text_at f w ++ s) w);
  open_trunc = λ f w. some (insert f [] w);
  create_directories = λ f w. (true, w);
  is_directory = λ f w. bytes_eq f (bytes "/b");
  is_regular_file = λ f w. is_some (lookup f w);
  entries = λ f w. names_on w;
  remove_file = λ f w. (is_some (lookup f w), erase f w);
}

abbrev pub settings : Settings
settings = record {
  env = record { home = none; cwd = some (bytes "/srv") };
  backup_file_dir = bytes "/b";
  data_manager_filepath = bytes "/t";
  lru_file_capacity = 2;
  lru_file_content_size = 4;
}

abbrev pub files : Disk
files = (bytes "/b/x", bytes "xx") ∷ (bytes "/b/y", bytes "y") ∷ []

abbrev node : Bytes → ℕ → Bytes → Ptr → Ptr → DataManagerNode
node name size content n p = record {
  info = record { filename = name; size = pos size; time = pos 5 };
  file_pre_content = content;
  next = n;
  prev = p;
}

-- The guard is 1, the node of `x` 2, that of `y` 3.
abbrev pub nodes : Heap
nodes p =
    if p == 1
    then node [] 0 [] 2 2
    else if p == 2
    then node (bytes "x") 2 (bytes "xx") 1 1
    else if p == 3
    then node (bytes "y") 1 [] 0 0
    else node [] 0 [] 0 0

abbrev pub manager : DataManager
manager = record {
  hash = (bytes "x", 2) ∷ (bytes "y", 3) ∷ (bytes "z", 0) ∷ [];
  heap = nodes;
  list = record { size = 1; capacity = 2; guard = 1 };
  is_dirty = false;
  next_node = 4;
}

pub manager-Inv : Inv manager (2 ∷ [])
manager-Inv = record {
  lru = record {
    list = record {
      chain = ground arith;
      distinct = ground arith;
      no_guard = refl;
      no_null = refl;
      counted = refl;
      loose = λ x m. ground arith;
      uncached = λ x m. ground arith;
    };
    bounded = omega arith;
    small = omega arith;
  };
  unique = (refl, (refl, (refl, tt)));
  guard_old = omega arith;
  live = λ name p e p0. ground (
    arith,
    bytes_eq→eq (bytes "x") name,
    bytes_eq→eq (bytes "y") name,
    bytes_eq→eq (bytes "z") name,
  );
  listed = λ q m. ground arith;
}

-- A cached file is read.
get_refines_example : Read manager (2 ∷ []) (bytes "x")
get_refines_example = get_refines manager (2 ∷ []) (bytes "x") manager-Inv

-- A file that is not cached yet is cached.
put_refines_example : Written settings manager (2 ∷ []) (bytes "y") (bytes "yyyyy")
put_refines_example = put_refines settings manager (2 ∷ []) (bytes "y") (bytes "yyyyy") manager-Inv

-- The registered file is uploaded.
insert_file-Inserted_example :
    Inserted manager
      (2 ∷ [])
      (bytes "z")
      (pos 9)
      (pos 6)
      (insert_file (bytes "z") (pos 9) (pos 6) manager)
insert_file-Inserted_example =
    insert_file-Inserted manager (2 ∷ []) (bytes "z") (pos 9) (pos 6) manager-Inv

-- A new name is registered.
register-Registered_example :
    Registered disk settings manager
      (2 ∷ [])
      (bytes "new")
      files
      (register disk settings (bytes "new") manager files)
register-Registered_example =
    register-Registered disk settings manager (2 ∷ []) (bytes "new") files manager-Inv
