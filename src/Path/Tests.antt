-- ===== src/Path/Tests.antt =====
-- Runs of the path functions.
use cloud_backup_system.Common.{◌≡◌, refl, arith, some, [], ◌∷◌, List, Bytes, true, bytes}
use cloud_backup_system.Path.{
  Env, file_path, path_transform, is_path, apply_segments, apply_segment, add_segment,
}
use cloud_backup_system.Path.Url.{
  url_decode, url_decode-Encodes, as_is, space, coded, end, decimal, lower, upper,
}
use cloud_backup_system.Path.Resolved.{are_names}
use cloud_backup_system.Path.Transform.{target, target_text, path_transform-target}

abbrev env : Env
env = record { home = some (bytes "/home/u"); cwd = some (bytes "/srv/app") }

relative_test : file_path env (bytes "./a/../b/x/") ≡ bytes "/srv/app/b/x"
unfolding file_path path_transform is_path apply_segments apply_segment add_segment
relative_test = refl

home_test : file_path env (bytes "~/b/./x") ≡ bytes "/home/u/b/x"
unfolding file_path path_transform is_path apply_segments apply_segment add_segment
home_test = refl

above_root_test : file_path env (bytes "/../x") ≡ bytes "/x"
unfolding file_path path_transform is_path apply_segments apply_segment add_segment
above_root_test = refl

double_slash_test : file_path env (bytes "/a//x") ≡ []
unfolding file_path path_transform is_path apply_segments apply_segment add_segment
double_slash_test = refl

-- A slash twice, with its second digit in either case.
url_decode_example : url_decode (bytes "a+%2f%2F") ≡ bytes "a //"
url_decode_example = url_decode-Encodes (
    as_is b'a' (λ e. omega (arith, e)) (λ e. omega (arith, e))
      (space (
        coded (decimal 2 (omega arith)) (lower 5 (omega arith))
          (coded (decimal 2 (omega arith)) (upper 5 (omega arith)) end))))

abbrev cwd_names : List Bytes
cwd_names = bytes "app" ∷ bytes "srv" ∷ []

path_transform-target_example :
    (path_transform 2 env (bytes "../x/./y")
      ≡ some (target_text (target env.home cwd_names (bytes "../x/./y"))))
    × ((ns : List Bytes)
        → target env.home cwd_names (bytes "../x/./y") ≡ some ns
        → are_names ns ≡ true)
path_transform-target_example = path_transform-target 0 env cwd_names (bytes "../x/./y") refl refl
