-- ===== src/Request/Fields.antt =====
-- HTTPconnection.hpp: the callbacks for the fields of a request.
use cloud_backup_system.Common.{
  ℕ, ◌≡◌, refl, Bool, true, false, ◌||◌, some, [], ◌∷◌, ◌++◌, arith, Bytes, ltb, ◌==◌, length, drop,
  take-drop, append_assoc, append-nil, Option-cases, Bool-cases, inl, inr,
}
use cloud_backup_system.Path.{is_empty, slash, root}
use cloud_backup_system.Upload.{HttpMessageInfo, find}
use cloud_backup_system.Upload.Find.{find_within}
use cloud_backup_system.Request.{
  upper, lower, on_method, on_url, on_version, on_header_field, on_header_value, on_url_complete,
  second_slash,
}

upper-append : (a b : Bytes) → upper (a ++ b) ≡ upper a ++ upper b
upper-append [] b = refl
upper-append (c ∷ a) b = rw (upper-append a b)

lower-append : (a b : Bytes) → lower (a ++ b) ≡ lower a ++ lower b
lower-append [] b = refl
lower-append (c ∷ a) b = rw (lower-append a b)

-- Two pieces of a field.
pub record Joined (a b : Bytes) (m : HttpMessageInfo) : Type 0 where
  pub method : on_method b (on_method a m) ≡ on_method (a ++ b) m
  pub url : on_url b (on_url a m) ≡ on_url (a ++ b) m
  pub version : on_version b (on_version a m) ≡ on_version (a ++ b) m
  pub header_field : on_header_field b (on_header_field a m) ≡ on_header_field (a ++ b) m
  pub header_value : on_header_value b (on_header_value a m) ≡ on_header_value (a ++ b) m

-- A method, an address, a version, a header's field or a header's value that comes in two pieces
-- gives what it gives in one.
pub pieces-Joined : (a b : Bytes) (m : HttpMessageInfo) → Joined a b m
unfolding on_method on_url on_version on_header_field on_header_value
pieces-Joined a b m = record {
  method = rw (upper-append a b, append_assoc m.request_method (upper a) (upper b));
  url = rw (append_assoc m.request_url a b);
  version = rw (append_assoc m.request_version a b);
  header_field = rw (lower-append a b, append_assoc m.request_cur_header_field (lower a) (lower b));
  header_value = rw (append_assoc m.request_cur_header_value a b);
}

abbrev pub starts_with_slash : Bytes → Bool
starts_with_slash [] = false
starts_with_slash (c ∷ cs) = c == slash

find_slash : (s : Bytes) (i : ℕ) → find root s ≡ some i → starts_with_slash (drop i s) ≡ true
unfolding find
find_slash [] i e = cc
find_slash (c ∷ s) i e = elim (Bool-cases (c == slash)) [
  | inl is ↦ ground arith
  | inr other ↦ elim (Option-cases (find root s)) [
    | inl f ↦ absurd (ground arith)
    | inr (j, f) ↦ ground (arith, find_slash s j f)
  ]
]

second_slash_found :
    (s : Bytes) (pos : ℕ)
    → second_slash s ≡ some pos
    → (ltb pos (length s) ≡ true) × (starts_with_slash (drop pos s) ≡ true)
second_slash_found [] pos e = cc
second_slash_found (c ∷ cs) pos e = elim (Option-cases (find root cs)) [
  | inl f ↦ absurd (ground arith)
  | inr (i, f) ↦ ground (arith, find_slash cs i f, find_within root cs i f)
]

-- The address in two parts.
pub record Split (m : HttpMessageInfo) : Type 0 where
  pub whole :
      (on_url_complete m).request_url_prefix ++ (on_url_complete m).request_url_path ≡ m.request_url
  pub slashed :
      (is_empty (on_url_complete m).request_url_path
        || starts_with_slash (on_url_complete m).request_url_path)
      ≡ true

-- Where no path is set yet, the address is cut into a prefix and a path that is empty or starts
-- with a slash.
pub on_url_complete-Split : (m : HttpMessageInfo) → m.request_url_path ≡ [] → Split m
unfolding on_url_complete
on_url_complete-Split m fresh = elim (Option-cases (second_slash m.request_url)) [
  | inl e ↦ record {
    whole = rw (on_url_complete, e, fresh, append-nil m.request_url);
    slashed = rw (on_url_complete, e, fresh);
  }
  | inr (pos, e) ↦
      let (inside, at) = second_slash_found m.request_url pos e in
      record {
        whole = rw (on_url_complete, e, inside, take-drop pos m.request_url);
        slashed = rw (on_url_complete, e, inside, at) (ground arith);
      }
]
