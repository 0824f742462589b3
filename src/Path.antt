-- ===== src/Path.antt =====
-- util.hpp, lines 52 to 65 and 214 to 351: the path and name functions of FileUtil. Paths are byte
-- strings. What `getenv("HOME")` and `getcwd` return is a parameter.
pub mod Names
pub mod Resolved
pub mod Standing
pub mod Transform
pub mod Url
mod Tests
use cloud_backup_system.Common.{
  ℕ, zero, suc, Bool, true, false, not, ◌&&◌, ◌||◌, Option, none, some, ◌>>=◌, List, [], ◌∷◌, ◌++◌,
  Bytes, bytes, bytes_eq, ◌==◌, if◌then◌else◌,
}

pub record Env : Type 0 where
  pub home : Option Bytes
  pub cwd : Option Bytes

abbrev pub slash : ℕ
slash = b'/'

abbrev pub root : Bytes
root = slash ∷ []

abbrev pub is_empty : Bytes → Bool
is_empty [] = true
is_empty (c ∷ cs) = false

-- `s[s.size() - 1] == '/'`; the empty text has no last byte.
abbrev pub ends_with_slash : Bytes → Bool
ends_with_slash [] = false
ends_with_slash (c ∷ []) = c == slash
ends_with_slash (c ∷ d ∷ cs) = ends_with_slash (d ∷ cs)

abbrev pub pop_back : Bytes → Bytes
pop_back [] = []
pop_back (c ∷ []) = []
pop_back (c ∷ d ∷ cs) = c ∷ pop_back (d ∷ cs)

abbrev pub strip_slash : Bytes → Bytes
strip_slash s = if ends_with_slash s then pop_back s else s

abbrev pub has_slash : Bytes → Bool
has_slash [] = false
has_slash (c ∷ cs) = c == slash || has_slash cs

-- `s.substr(0, s.find_last_of('/') + 1)` and `s.substr(s.find_last_of('/') + 1)`.
abbrev pub up_to_last_slash : Bytes → Bytes
up_to_last_slash [] = []
up_to_last_slash (c ∷ cs) =
    if has_slash cs then c ∷ up_to_last_slash cs else if c == slash then c ∷ [] else []

abbrev pub after_last_slash : Bytes → Bytes
after_last_slash [] = []
after_last_slash (c ∷ cs) =
    if has_slash cs then after_last_slash cs else if c == slash then cs else c ∷ cs

-- The pieces that the loops over `find('/', lpos)` visit while `lpos < size`: a slash at the very
-- end opens no further piece.
abbrev pub prepend : ℕ → List Bytes → List Bytes
prepend c [] = (c ∷ []) ∷ []
prepend c (s ∷ ss) = (c ∷ s) ∷ ss

abbrev pub segments : Bytes → List Bytes
segments [] = []
segments (c ∷ cs) = let rest = segments cs in if c == slash then [] ∷ rest else prepend c rest

abbrev pub any_empty : List Bytes → Bool
any_empty [] = false
any_empty (s ∷ ss) = is_empty s || any_empty ss

-- The end of `is_path`: the check of the pieces, and the text put together.
abbrev complete : List Bytes → Bytes → Bytes
complete pieces ret = if any_empty pieces then [] else strip_slash ret

-- `path[0] == '~' && (path.size() == 1 || path[1] == '/')`, for the bytes behind the first.
abbrev pub is_tilde : ℕ → Bytes → Bool
is_tilde c [] = c == b'~'
is_tilde c (d ∷ cs) = c == b'~' && d == slash

abbrev expand : Option Bytes → ℕ → Bytes → Bytes
expand home c cs =
    if is_tilde c cs
    then elim home [ none ↦ [] | some p ↦ complete (segments (c ∷ cs)) (p ++ cs) ]
    else if c == slash
    then complete (segments cs) (c ∷ cs)
    else complete (segments (c ∷ cs)) (bytes "./" ++ c ∷ cs)

unfoldable pub is_path : Option Bytes → Bytes → Bytes
is_path home [] = []
is_path home (c ∷ cs) = if bytes_eq (c ∷ cs) root then c ∷ cs else expand home c cs

unfoldable pub add_segment : Bytes → Bytes → Bytes
add_segment a s = (if ends_with_slash a then a else a ++ root) ++ s

-- One round of the loop of `path_transform`; `dir` is the call of `file_dir`.
unfoldable pub apply_segment : (Bytes → Option Bytes) → Bytes → Bytes → Option Bytes
apply_segment dir a s =
    if bytes_eq s (bytes ".")
    then some a
    else if bytes_eq s (bytes "..")
    then dir a
    else some (add_segment a s)

unfoldable pub apply_segments : (Bytes → Option Bytes) → List Bytes → Bytes → Option Bytes
apply_segments dir [] a = some a
apply_segments dir (s ∷ ss) a = do a' ← apply_segment dir a s; apply_segments dir ss a'

-- The text before its last slash is dropped, unless it is the root.
abbrev pub trim : Bytes → Bytes
trim a = if ends_with_slash a && not (bytes_eq a root) then pop_back a else a

unfoldable pub transform_from : (Bytes → Option Bytes) → Env → Bytes → Option Bytes
transform_from dir env [] = some []
transform_from dir env (c ∷ cs) =
    if c == slash
    then (do a ← apply_segments dir (segments cs) root; some (trim a))
    else elim env.cwd [
      | none ↦ some []
      | some p ↦ do a ← apply_segments dir (segments (c ∷ cs)) p; some (trim a)
    ]

-- `path_transform` and `file_dir` call one another. `depth` bounds the nesting, and `none` says
-- that it was not enough.
unfoldable pub path_transform : ℕ → Env → Bytes → Option Bytes
unfolding transform_from is_path
path_transform zero env path = none
path_transform (suc depth) env path =
    transform_from (λ a. do ret ← path_transform depth env a; some (up_to_last_slash ret)) env
      (is_path env.home path)

unfoldable pub file_dir : ℕ → Env → Bytes → Option Bytes
file_dir depth env path = do ret ← path_transform depth env path; some (up_to_last_slash ret)

-- The constructor of FileUtil. `file_dir` is called on paths without dots, so the depth is two.
unfoldable pub file_path : Env → Bytes → Bytes
file_path env path = elim (path_transform 2 env path) [ none ↦ [] | some p ↦ p ]

-- GetFileName of a FileUtil with this path.
unfoldable pub get_file_name : Bytes → Bytes
get_file_name path =
    if is_empty path || bytes_eq path root then [] else after_last_slash (strip_slash path)

abbrev pub no_forbidden : Bytes → Bool
no_forbidden [] = true
no_forbidden (c ∷ cs) = not (c == slash || c == b'"') && no_forbidden cs

unfoldable pub check_filename : Bytes → Bool
check_filename name = not (is_empty name) && no_forbidden name
