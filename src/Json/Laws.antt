-- ===== src/Json/Laws.antt =====
-- JsonCpp, as far as the manager relies on it.
use cloud_backup_system.Common.{
  Bool, true, ◌≡◌, ◌^◌, ◌&&◌, some, Bytes, bytes_eq, List, [], ◌∷◌, ℤ, pos, negsuc, ltb, is_some,
  if◌then◌else◌,
}
use cloud_backup_system.Node.{BackupInfoNode}
use cloud_backup_system.Json.{JsonCpp, is_zero}

-- The numbers of an Int64.
abbrev pub is_int64 : ℤ → Bool
is_int64 (pos n) = ltb n (2 ^ 63)
is_int64 (negsuc n) = ltb n (2 ^ 63)

abbrev pub all_int64 : List BackupInfoNode → Bool
all_int64 [] = true
all_int64 (i ∷ is) = is_int64 i.size && is_int64 i.time && all_int64 is

module _ (json : JsonCpp) where
  open json use {Value}

  -- The value to which these were appended, the first one first.
  abbrev pub appended : List Value → Value → Value
  appended [] root = root
  appended (v ∷ vs) root = appended vs (json.append root v)

  -- The object of which these members were set, the last one first.
  abbrev pub object : List (Bytes × Value) → Value
  object [] = json.null_value
  object ((k, v) ∷ ms) = json.set k v (object ms)

  -- A loop over an array goes through what was appended to a null value; the member of a key is what
  -- was set last under it; a string and an Int64 are given back; the text that a writer made of a
  -- value without an error is read back as the value.
  pub record JsonLaws : Type 0 where
    pub elements-appended : (vs : List Value) → json.elements (appended vs json.null_value) ≡ vs
    pub get-set :
        (k j : Bytes) (v : Value) (ms : List (Bytes × Value))
        → json.get j (json.set k v (object ms))
          ≡ (if bytes_eq k j then v else json.get j (object ms))
    pub as_string-of_text : (s : Bytes) → json.as_string (json.of_text s) ≡ some s
    pub as_int64-of_int64 : (n : ℤ) → is_int64 n ≡ true → json.as_int64 (json.of_int64 n) ≡ some n
    pub reader : is_some json.new_reader ≡ true
    pub round_trip :
        (writer : json.Writer) (reader : json.Reader) (value old : Value)
        → json.IsUtf8 value
        → is_zero (json.write writer value).0 ≡ true
        → json.parse reader (json.write writer value).1 old ≡ (true, value)
