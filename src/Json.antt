-- ===== src/Json.antt =====
-- util.hpp, lines 354 to 399: JsonUtil, and the members of the values that the manager stores and
-- loads (data_manager.hpp, lines 360 to 364 and 433 to 443). JsonCpp is a parameter.
pub mod Laws
pub mod Both
pub mod Restart
mod Tests
use cloud_backup_system.Common.{
  Bool, true, false, Option, none, some, Bytes, bytes, List, [], ◌∷◌, ℤ, pos, negsuc, ℕ, zero, suc,
  ◌>>=◌, if◌then◌else◌,
}
use cloud_backup_system.Node.{BackupInfoNode}
use cloud_backup_system.DataManager.Storage

-- `null_value` is a value of the default constructor, `of_text` and `of_int64` are made of a string
-- and of an Int64, `set` is the assignment to `[]`, `get` the reading of it, `elements` what a loop
-- over the value goes through. An accessor that throws gives `none`.
-- `new_writer` and `new_reader` give null as `none`. `write` gives its status and the text in the
-- stream, `parse` whether the text is JSON, and what is then in the value. `IsUtf8` says that the
-- strings in a value are in the encoding that the writer expects.
pub record JsonCpp : Type 1 where
  pub Value : Type 0
  pub null_value : Value
  pub of_text : Bytes → Value
  pub of_int64 : ℤ → Value
  pub set : Bytes → Value → Value → Value
  pub get : Bytes → Value → Value
  pub append : Value → Value → Value
  pub elements : Value → List Value
  pub as_string : Value → Option Bytes
  pub as_int64 : Value → Option ℤ
  pub IsUtf8 : Value → Type 0
  pub Writer : Type 0
  pub Reader : Type 0
  pub new_writer : Option Writer
  pub write : Writer → Value → ℤ × Bytes
  pub new_reader : Option Reader
  pub parse : Reader → Bytes → Value → Bool × Value

abbrev pub is_zero : ℤ → Bool
is_zero n = elim n [ pos m ↦ elim m [ zero ↦ true | suc k ↦ false ] | negsuc m ↦ false ]

module _ (json : JsonCpp) where
  open json use {Value}

  -- Serialize gives whether it worked and the buffer. The test for null is of the function `write`,
  -- which is never null, so a null writer is a fault, `none`.
  unfoldable pub serialize : Value → Bytes → Option (Bool × Bytes)
  serialize info buff = do
    writer ← json.new_writer
    some (
        let (status, text) = json.write writer info in
        if is_zero status then (true, text) else (false, buff))

  unfoldable pub deserialize : Bytes → Value → Bool × Value
  deserialize buff info = elim json.new_reader [
    | none ↦ (false, info)
    | some reader ↦ json.parse reader buff info
  ]

  -- The members of an item, in the order in which the storing thread sets them.
  unfoldable pub item_of : BackupInfoNode → Value
  item_of info = json.set (bytes "time") (json.of_int64 info.time) (
      json.set (bytes "size") (json.of_int64 info.size)
        (json.set (bytes "filename") (json.of_text info.filename) json.null_value))

  -- The items are appended to the root one after the other.
  unfoldable pub append_items : List BackupInfoNode → Value → Value
  append_items [] root = root
  append_items (info ∷ infos) root = append_items infos (json.append root (item_of info))

  -- What LoadFromFile reads of an item.
  unfoldable pub info_of : Value → Option BackupInfoNode
  info_of item = do
    name ← json.as_string (json.get (bytes "filename") item)
    length ← json.as_int64 (json.get (bytes "size") item)
    at ← json.as_int64 (json.get (bytes "time") item)
    some (record { filename = name; size = length; time = at })

  unfoldable pub infos_of : List Value → Option (List BackupInfoNode)
  infos_of [] = some []
  infos_of (item ∷ items) = do info ← info_of item; infos ← infos_of items; some (info ∷ infos)

  -- What the storing thread makes of the entries; `none` where it goes on to the next round.
  unfoldable pub serialize_infos : List BackupInfoNode → Option Bytes
  serialize_infos infos = do
    result ← serialize (append_items infos json.null_value) []
    if result.0 then some result.1 else none

  -- What a start reads of a text; `none` is an exit or an exception of an accessor.
  unfoldable pub deserialize_infos : Bytes → Option (List BackupInfoNode)
  deserialize_infos text =
      let (ok, root) = deserialize text json.null_value in
      if ok then infos_of (json.elements root) else none

  abbrev pub storage_json : Storage.Json
  storage_json = record { serialize = serialize_infos; deserialize = deserialize_infos }
