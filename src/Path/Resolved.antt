-- ===== src/Path/Resolved.antt =====
-- util.hpp, path_transform: absolute paths as the names on the way, the last one first, and what the
-- segments of a path do to them.
use cloud_backup_system.Common.{
  ◌≡◌, refl, sym, ap, ◌∙◌, Bool, true, false, not, ◌&&◌, List, [], ◌∷◌, ◌++◌, append_assoc, Bytes,
  bytes, bytes_eq, if◌then◌else◌, arith, &&-eq-true,
}
use cloud_backup_system.Path.{
  slash, root, is_empty, ends_with_slash, pop_back, has_slash, up_to_last_slash, any_empty,
  segments, add_segment,
}

-- A name: a text that is not empty, without a slash, and neither "." nor "..".
abbrev pub is_name : Bytes → Bool
is_name s =
    not (is_empty s)
    && (not (has_slash s) && (not (bytes_eq s (bytes ".")) && not (bytes_eq s (bytes ".."))))

abbrev pub are_names : List Bytes → Bool
are_names [] = true
are_names (n ∷ ns) = is_name n && are_names ns

-- The text behind the first slash, up to a last slash.
abbrev pub body : List Bytes → Bytes
body [] = []
body (n ∷ ns) = body ns ++ (n ++ root)

abbrev pub dir_text : List Bytes → Bytes
dir_text ns = slash ∷ body ns

-- The absolute path of the names.
abbrev pub path_text : List Bytes → Bytes
path_text [] = root
path_text (n ∷ ns) = slash ∷ (body ns ++ n)

abbrev pub parent : List Bytes → List Bytes
parent [] = []
parent (n ∷ ns) = ns

-- What one segment does: none for an empty one and ".", up for "..", down for a name.
abbrev pub resolve_one : Bytes → List Bytes → List Bytes
resolve_one s ns =
    if is_empty s
    then ns
    else if bytes_eq s (bytes ".")
    then ns
    else if bytes_eq s (bytes "..")
    then parent ns
    else s ∷ ns

abbrev pub resolve : List Bytes → List Bytes → List Bytes
resolve [] ns = ns
resolve (s ∷ ss) ns = resolve ss (resolve_one s ns)

ends_with_slash-root : (x : Bytes) → ends_with_slash (x ++ root) ≡ true
ends_with_slash-root [] = refl
ends_with_slash-root (c ∷ []) = refl
ends_with_slash-root (c ∷ d ∷ x) = ends_with_slash-root (d ∷ x)

pop_back-root : (x : Bytes) → pop_back (x ++ root) ≡ x
pop_back-root [] = refl
pop_back-root (c ∷ []) = refl
pop_back-root (c ∷ d ∷ x) = ap (λ t. c ∷ t) (pop_back-root (d ∷ x))

-- A text that ends in a text without a slash.
ends_with_slash-append :
    (x n : Bytes) → is_empty n ≡ false → has_slash n ≡ false → ends_with_slash (x ++ n) ≡ false
ends_with_slash-append [] [] e h = absurd (ground (arith, e))
ends_with_slash-append [] (c ∷ []) e h = ground (arith, h)
ends_with_slash-append [] (c ∷ d ∷ n) e h =
    ends_with_slash-append [] (d ∷ n) refl (ground (arith, h))
ends_with_slash-append (c ∷ []) [] e h = absurd (ground (arith, e))
ends_with_slash-append (c ∷ []) (d ∷ n) e h = ends_with_slash-append [] (d ∷ n) e h
ends_with_slash-append (c ∷ d ∷ x) n e h = ends_with_slash-append (d ∷ x) n e h

has_slash-append : (x n : Bytes) → has_slash n ≡ true → has_slash (x ++ n) ≡ true
has_slash-append [] n h = h
has_slash-append (c ∷ x) n h = ground (arith, has_slash-append x n h)

up_to_last_slash-none : (n : Bytes) → has_slash n ≡ false → up_to_last_slash n ≡ []
up_to_last_slash-none [] h = refl
up_to_last_slash-none (c ∷ n) h = ground (arith, h)

up_to_last_slash-append :
    (x n : Bytes) → has_slash n ≡ false → up_to_last_slash (x ++ slash ∷ n) ≡ x ++ root
up_to_last_slash-append [] n h = ground (arith, h)
up_to_last_slash-append (c ∷ x) n h =
    ground (arith, has_slash-append x (slash ∷ n) refl, up_to_last_slash-append x n h)

segments-name : (n y : Bytes) → has_slash n ≡ false → segments (n ++ slash ∷ y) ≡ n ∷ segments y
segments-name [] y h = refl
segments-name (c ∷ n) y h = ground (arith, h, segments-name n y (ground (arith, h)))

segments-last : (n : Bytes) → is_empty n ≡ false → has_slash n ≡ false → segments n ≡ n ∷ []
segments-last [] e h = absurd (ground (arith, e))
segments-last (c ∷ []) e h = ground (arith, h)
segments-last (c ∷ d ∷ n) e h = ground (arith, h, segments-last (d ∷ n) refl (ground (arith, h)))

-- The names behind the ones of `ns`, in the order of the path.
abbrev pub onto : List Bytes → List Bytes → List Bytes
onto [] ss = ss
onto (n ∷ ns) ss = onto ns (n ∷ ss)

name-no_slash : (n : Bytes) → is_name n ≡ true → has_slash n ≡ false
name-no_slash n h = ground (arith, h)

name-not_empty : (n : Bytes) → is_name n ≡ true → is_empty n ≡ false
name-not_empty n h = ground (arith, h)

pub segments-body :
    (ns : List Bytes) (y : Bytes)
    → are_names ns ≡ true
    → segments (body ns ++ y) ≡ onto ns (segments y)
segments-body [] y h = refl
segments-body (n ∷ ns) y h =
    let (hn, hs) = &&-eq-true (is_name n) (are_names ns) h in
    rw
      (
        append_assoc (body ns) (n ++ root) y,
        append_assoc n root y,
        segments-body ns (n ++ slash ∷ y) hs,
        segments-name n y (name-no_slash n hn),
      )
      refl

pub any_empty-onto :
    (ns ss : List Bytes) → are_names ns ≡ true → any_empty (onto ns ss) ≡ any_empty ss
any_empty-onto [] ss h = refl
any_empty-onto (n ∷ ns) ss h =
    let (hn, hs) = &&-eq-true (is_name n) (are_names ns) h in
    any_empty-onto ns (n ∷ ss) hs ∙ ground (arith, name-not_empty n hn)

module _ (n : Bytes) (ns : List Bytes) (h : are_names (n ∷ ns) ≡ true) where
  is_name-head : is_name n ≡ true
  is_name-head = (&&-eq-true (is_name n) (are_names ns) h).0

  pub segments-path_text : segments (body ns ++ n) ≡ onto ns (n ∷ [])
  segments-path_text =
      segments-body ns n (&&-eq-true (is_name n) (are_names ns) h).1
      ∙ ap (onto ns)
          (segments-last n (name-not_empty n is_name-head) (name-no_slash n is_name-head))

  pub segments-dir_text : segments (body (n ∷ ns)) ≡ onto ns (n ∷ [])
  segments-dir_text =
      segments-body ns (n ++ root) (&&-eq-true (is_name n) (are_names ns) h).1
      ∙ ap (onto ns) (segments-name n [] (name-no_slash n is_name-head))

  pub ends_with_slash-path_text : ends_with_slash (path_text (n ∷ ns)) ≡ false
  ends_with_slash-path_text =
      ends_with_slash-append (slash ∷ body ns) n (name-not_empty n is_name-head)
        (name-no_slash n is_name-head)

dir_text-root : (n : Bytes) (ns : List Bytes) → dir_text (n ∷ ns) ≡ path_text (n ∷ ns) ++ root
dir_text-root n ns = ap (λ t. slash ∷ t) (sym (append_assoc (body ns) n root))

pub ends_with_slash-dir_text : (ns : List Bytes) → ends_with_slash (dir_text ns) ≡ true
ends_with_slash-dir_text [] = refl
ends_with_slash-dir_text (n ∷ ns) =
    rw (dir_text-root n ns) (ends_with_slash-root (path_text (n ∷ ns)))

pub pop_back-dir_text :
    (n : Bytes) (ns : List Bytes) → pop_back (dir_text (n ∷ ns)) ≡ path_text (n ∷ ns)
pop_back-dir_text n ns = rw (dir_text-root n ns) (pop_back-root (path_text (n ∷ ns)))

pub up_to_last_slash-path_text :
    (ns : List Bytes) → are_names ns ≡ true → up_to_last_slash (path_text ns) ≡ dir_text (parent ns)
up_to_last_slash-path_text [] h = refl
up_to_last_slash-path_text (n ∷ []) h =
    up_to_last_slash-append [] n (name-no_slash n (is_name-head n [] h))
up_to_last_slash-path_text (n ∷ m ∷ ns) h =
    let no_slash = name-no_slash n (is_name-head n (m ∷ ns) h) in
    let shape : path_text (n ∷ m ∷ ns) ≡ path_text (m ∷ ns) ++ slash ∷ n =
      ap (λ t. t ++ n) (dir_text-root m ns) ∙ append_assoc (path_text (m ∷ ns)) root n in
    ap up_to_last_slash shape
    ∙ up_to_last_slash-append (path_text (m ∷ ns)) n no_slash
    ∙ sym (dir_text-root m ns)

pub add_segment-path_text :
    (ns : List Bytes) (s : Bytes)
    → are_names ns ≡ true
    → add_segment (path_text ns) s ≡ path_text (s ∷ ns)
unfolding add_segment
add_segment-path_text [] s h = refl
add_segment-path_text (n ∷ ns) s h =
    rw (ends_with_slash-path_text n ns h) (ap (λ t. t ++ s) (sym (dir_text-root n ns)))

pub add_segment-dir_text :
    (ns : List Bytes) (s : Bytes) → add_segment (dir_text ns) s ≡ path_text (s ∷ ns)
unfolding add_segment
add_segment-dir_text ns s = rw (ends_with_slash-dir_text ns) refl

pub resolve_one-names :
    (s : Bytes) (ns : List Bytes)
    → has_slash s ≡ false
    → are_names ns ≡ true
    → are_names (resolve_one s ns) ≡ true
resolve_one-names s [] e h = ground (arith, e)
resolve_one-names s (n ∷ ns) e h = ground (arith, e, h)
