-- ===== src/Json/Both.antt =====
-- util.hpp, JsonUtil: Serialize and Deserialize together, and the members of the manager's file.
use cloud_backup_system.Common.{
  ◌≡◌, refl, true, some, List, [], ◌∷◌, Bytes, bytes, arith, inl, inr, Option-cases, Bool-cases,
  map, ◌∙◌,
}
use cloud_backup_system.Node.{BackupInfoNode}
use cloud_backup_system.Json.{
  JsonCpp, serialize, deserialize, is_zero, item_of, append_items, info_of, infos_of,
  serialize_infos, deserialize_infos,
}
use cloud_backup_system.Json.Laws.{JsonLaws, is_int64, all_int64, appended}

module _ (json : JsonCpp) (laws : JsonLaws json) where
  -- Where Serialize says that it worked, Deserialize of its text gives the value, whatever was in the
  -- buffer and in the other value before.
  deserialize-serialize :
      (value old : json.Value) (buff text : Bytes)
      → json.IsUtf8 value
      → serialize json value buff ≡ some (true, text)
      → deserialize json text old ≡ (true, value)
  unfolding serialize deserialize
  deserialize-serialize value old buff text u h = elim (Option-cases json.new_writer) [
    | inl e ↦ absurd (ground (arith, h, e))
    | inr (writer, e) ↦ elim (Bool-cases (is_zero (json.write writer value).0)) [
      | inr f ↦ absurd (ground (arith, h, e, f))
      | inl f ↦ elim (Option-cases json.new_reader) [
        | inl g ↦ absurd (ground (arith, laws.reader, g))
        | inr (reader, g) ↦
            let same : (json.write writer value).1 ≡ text = ground (arith, h, e, f) in
            rw (g, ← same) (laws.round_trip writer reader value old u f)
      ]
    ]
  ]

  append_items-appended :
      (infos : List BackupInfoNode) (root : json.Value)
      → append_items json infos root ≡ appended json (map (item_of json) infos) root
  unfolding append_items
  append_items-appended [] root = refl
  append_items-appended (i ∷ is) root = append_items-appended is (json.append root (item_of json i))

  -- The members of an item before its size was set, and before its time was.
  abbrev before_size : BackupInfoNode → List (Bytes × json.Value)
  before_size i = (bytes "filename", json.of_text i.filename) ∷ []

  abbrev before_time : BackupInfoNode → List (Bytes × json.Value)
  before_time i = (bytes "size", json.of_int64 i.size) ∷ before_size i

  get-filename :
      (i : BackupInfoNode) → json.get (bytes "filename") (item_of json i) ≡ json.of_text i.filename
  unfolding item_of
  get-filename i =
      laws.get-set (bytes "time") (bytes "filename") (json.of_int64 i.time) (before_time i)
      ∙ (laws.get-set (bytes "size") (bytes "filename") (json.of_int64 i.size) (before_size i)
          ∙ laws.get-set (bytes "filename") (bytes "filename") (json.of_text i.filename) [])

  get-size : (i : BackupInfoNode) → json.get (bytes "size") (item_of json i) ≡ json.of_int64 i.size
  unfolding item_of
  get-size i =
      laws.get-set (bytes "time") (bytes "size") (json.of_int64 i.time) (before_time i)
      ∙ laws.get-set (bytes "size") (bytes "size") (json.of_int64 i.size) (before_size i)

  get-time : (i : BackupInfoNode) → json.get (bytes "time") (item_of json i) ≡ json.of_int64 i.time
  unfolding item_of
  get-time i = laws.get-set (bytes "time") (bytes "time") (json.of_int64 i.time) (before_time i)

  info_of-item_of :
      (i : BackupInfoNode)
      → is_int64 i.size ≡ true
      → is_int64 i.time ≡ true
      → info_of json (item_of json i) ≡ some i
  unfolding info_of
  info_of-item_of i s t =
      rw
        (
          get-filename i,
          get-size i,
          get-time i,
          laws.as_string-of_text i.filename,
          laws.as_int64-of_int64 i.size s,
          laws.as_int64-of_int64 i.time t,
        )
        refl

  infos_of-item_of :
      (infos : List BackupInfoNode)
      → all_int64 infos ≡ true
      → infos_of json (map (item_of json) infos) ≡ some infos
  unfolding infos_of
  infos_of-item_of [] h = refl
  infos_of-item_of (i ∷ is) h =
      rw
        (
          info_of-item_of i (ground (arith, h)) (ground (arith, h)),
          infos_of-item_of is (ground (arith, h)),
        )
        refl

  -- What the manager's file holds is read back as the entries that it was made of.
  pub deserialize_infos-serialize_infos :
      (infos : List BackupInfoNode) (text : Bytes)
      → all_int64 infos ≡ true
      → json.IsUtf8 (append_items json infos json.null_value)
      → serialize_infos json infos ≡ some text
      → deserialize_infos json text ≡ some infos
  unfolding serialize_infos deserialize_infos
  deserialize_infos-serialize_infos infos text fits u h =
      let root = append_items json infos json.null_value in
      elim (Option-cases (serialize json root [])) [
        | inl e ↦ absurd (ground (arith, h, e))
        | inr ((ok, text'), e) ↦ elim (Bool-cases ok) [
          | inr f ↦ absurd (ground (arith, h, e, f))
          | inl f ↦
              let same : text' ≡ text = ground (arith, h, e, f) in
              let wrote : serialize json root [] ≡ some (true, text) = rw (e, f, same) refl in
              rw
                (
                  deserialize-serialize root json.null_value [] text u wrote,
                  append_items-appended infos json.null_value,
                  laws.elements-appended (map (item_of json) infos),
                )
                (infos_of-item_of infos fits)
        ]
      ]
