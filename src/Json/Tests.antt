-- ===== src/Json/Tests.antt =====
-- JsonCpp as a tree of what was set and appended, with a text for the tree of the example's table.
use cloud_backup_system.Common.{
  ◌∷◌, ◌++◌, ◌≡◌, refl, true, Option, none, some, Bytes, bytes, bytes_eq, List, ℤ, pos, [], ap, ◌∙◌,
  append_assoc, append-nil, sym, if◌then◌else◌, inl, inr, arith, Option-cases, take, length,
  take-length,
}
use cloud_backup_system.Path.{
  file_path, path_transform, is_path, apply_segments, apply_segment, add_segment,
}
use cloud_backup_system.FileUtil.{get_content, exists, clear, append_content, get_file_size}
use cloud_backup_system.FileUtil.Rewritten.{FileLaws}
use cloud_backup_system.DataManager.Tests.{
  Disk, disk, settings, files, manager, manager-Inv, text_at, text_at-insert, drop_bytes,
  drop_bytes-drop,
}
use cloud_backup_system.DataManager.{lookup, insert}
use cloud_backup_system.DataManager.Storage.{store_round}
use cloud_backup_system.DataManager.Storage.Persist.{Restored}
use cloud_backup_system.DataManager.Storage.Tests.{fresh, fresh-Inv}
use cloud_backup_system.Json.{
  JsonCpp, serialize, deserialize, storage_json, append_items, item_of, serialize_infos,
}
use cloud_backup_system.Json.Laws.{JsonLaws, appended}
use cloud_backup_system.Json.Restart.{serialized_restart}

data Tree : Type 0 where
  nothing : Tree
  string : Bytes → Tree
  number : ℤ → Tree
  member : Bytes → Tree → Tree → Tree
  item : Tree → Tree → Tree

abbrev member_of : Bytes → Tree → Tree
member_of k (member j v o) = if bytes_eq j k then v else member_of k o
member_of k _ = nothing

abbrev items_of : Tree → List Tree
items_of (item root v) = items_of root ++ v ∷ []
items_of _ = []

abbrev string_of : Tree → Option Bytes
string_of (string s) = some s
string_of _ = none

abbrev number_of : Tree → Option ℤ
number_of (number n) = some n
number_of _ = none

abbrev entry : Bytes → ℤ → ℤ → Tree
entry name length at =
    member (bytes "time") (number at)
      (member (bytes "size") (number length) (member (bytes "filename") (string name) nothing))

-- The entries of the two uploaded files.
abbrev root : Tree
root = item (item nothing (entry (bytes "x") (pos 2) (pos 5))) (entry (bytes "y") (pos 1) (pos 5))

abbrev trees : JsonCpp
trees = record {
  Value = Tree;
  null_value = nothing;
  of_text = string;
  of_int64 = number;
  set = member;
  get = member_of;
  append = item;
  elements = items_of;
  as_string = string_of;
  as_int64 = number_of;
  IsUtf8 = λ v. v ≡ root;
  Writer = Bytes;
  Reader = Bytes;
  new_writer = some [];
  write = λ writer value. (pos 0, bytes "{..}");
  new_reader = some [];
  parse = λ reader text old. (true, root);
}

abbrev no_writer : JsonCpp
no_writer = record trees { new_writer = none }

-- A null writer is not answered by `false`: it is used.
null_writer : serialize no_writer nothing [] ≡ none
unfolding serialize
null_writer = refl

written : serialize trees root (bytes "x") ≡ some (true, bytes "{..}")
unfolding serialize
written = refl

read_back : deserialize trees (bytes "{..}") nothing ≡ (true, root)
unfolding deserialize
read_back = refl

items_of-appended : (vs : List Tree) (t : Tree) → items_of (appended trees vs t) ≡ items_of t ++ vs
items_of-appended [] t = sym (append-nil (items_of t))
items_of-appended (v ∷ vs) t =
    items_of-appended vs (item t v) ∙ append_assoc (items_of t) (v ∷ []) vs

trees-JsonLaws : JsonLaws trees
trees-JsonLaws = record {
  elements-appended = λ vs. items_of-appended vs nothing;
  get-set = λ k j v ms. refl;
  as_string-of_text = λ s. refl;
  as_int64-of_int64 = λ n h. refl;
  reader = refl;
  round_trip = λ writer reader value old u h. ap (λ t. (true, t)) (sym u);
}

abbrev table_text : Disk → Bytes
table_text w = text_at (bytes "/t") w

table_text-FileLaws : FileLaws disk (bytes "/t") table_text
table_text-FileLaws = record {
  emptied = λ w w' e.
      let same : insert (bytes "/t") [] w ≡ w' = ground (arith, e) in
      rw (← same) (text_at-insert (bytes "/t") [] w);
  opened = λ w w' e.
      let same : insert (bytes "/t") (table_text w) w ≡ w' = ground (arith, e) in
      rw (← same) (text_at-insert (bytes "/t") (table_text w) w);
  added = λ s w h. text_at-insert (bytes "/t") (text_at (bytes "/t") w ++ s) w;
  sized = λ w n e. elim (Option-cases (lookup (bytes "/t") w)) [
    | inl f ↦ absurd (ground (arith, e, f))
    | inr (t, f) ↦ ground (arith, e, f)
  ];
  gives = λ w s e.
      let got : take (length (table_text w)) (drop_bytes 0 (table_text w)) ≡ s =
        ground (arith, e) in
      sym got
      ∙ (ap (take (length (table_text w))) (drop_bytes-drop 0 (table_text w))
          ∙ take-length (table_text w));
}

serialized_restart_example :
    Restored disk
      (storage_json trees)
      settings
      manager
      fresh
      (store_round disk (storage_json trees) settings manager ((bytes "/t", bytes "old") ∷ files)).1
unfolding get_content file_path path_transform is_path apply_segments apply_segment add_segment
    store_round clear append_content exists get_file_size serialize append_items item_of
    serialize_infos
serialized_restart_example =
    serialized_restart trees disk settings trees-JsonLaws table_text table_text-FileLaws manager
      fresh (2 ∷ []) ((bytes "/t", bytes "old") ∷ files) (bytes "{..}") manager-Inv fresh-Inv refl
      refl refl refl refl (omega arith) refl refl refl
