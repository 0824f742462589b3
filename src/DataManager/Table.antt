-- ===== src/DataManager/Table.antt =====
-- `_hash`, an unordered map from names to pointers, as an association list.
use cloud_backup_system.Common.{
  ◌≡◌, refl, Option, none, some, List, [], ◌∷◌, arith, Bytes, bytes_eq, bytes_eq_iff, if◌then◌else◌,
}

module _ {ℓ} {V : Type ℓ} where
  abbrev pub lookup : Bytes → List (Bytes × V) → Option V
  lookup k [] = none
  lookup k ((j, v) ∷ m) = if bytes_eq j k then some v else lookup k m

  -- `m[k] = v`.
  abbrev pub insert : Bytes → V → List (Bytes × V) → List (Bytes × V)
  insert k v [] = (k, v) ∷ []
  insert k v ((j, w) ∷ m) = if bytes_eq j k then (j, v) ∷ m else (j, w) ∷ insert k v m

  -- A key stands once in a table that `insert` has built; all its entries go.
  abbrev pub erase : Bytes → List (Bytes × V) → List (Bytes × V)
  erase k [] = []
  erase k ((j, w) ∷ m) = let rest = erase k m in if bytes_eq j k then rest else (j, w) ∷ rest

  pub lookup-insert :
      (k j : Bytes) (v : V) (m : List (Bytes × V))
      → lookup j (insert k v m) ≡ (if bytes_eq k j then some v else lookup j m)
  lookup-insert k j v [] = refl
  lookup-insert k j v ((i, w) ∷ m) =
      ground (arith, bytes_eq_iff k j, bytes_eq_iff i k, bytes_eq_iff i j, lookup-insert k j v m)

  pub lookup-erase :
      (k j : Bytes) (m : List (Bytes × V))
      → lookup j (erase k m) ≡ (if bytes_eq k j then none else lookup j m)
  lookup-erase k j [] = ground arith
  lookup-erase k j ((i, w) ∷ m) =
      ground (arith, bytes_eq_iff k j, bytes_eq_iff i k, bytes_eq_iff i j, lookup-erase k j m)

  -- No key stands twice.
  abbrev pub Unique : List (Bytes × V) → Type ℓ
  Unique [] = Unit
  Unique ((k, v) ∷ m) = (lookup k m ≡ none) × Unique m

  pub Unique-insert : (k : Bytes) (v : V) (m : List (Bytes × V)) → Unique m → Unique (insert k v m)
  Unique-insert k v [] u = (refl, tt)
  Unique-insert k v ((j, w) ∷ m) u =
      ground
        (arith, Unique-insert k v m u.1, lookup-insert k j v m, bytes_eq_iff j k, bytes_eq_iff k j)

  pub Unique-erase : (k : Bytes) (m : List (Bytes × V)) → Unique m → Unique (erase k m)
  Unique-erase k [] u = tt
  Unique-erase k ((j, w) ∷ m) u = ground (arith, Unique-erase k m u.1, lookup-erase k j m)
