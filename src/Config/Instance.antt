-- ===== src/Config/Instance.antt =====
-- config.hpp, GetInstance: how it ends, and what it gives.
use cloud_backup_system.Common.{◌≡◌, refl, Option, none, some, inl, inr, Option-cases, ◌⊎◌}
use cloud_backup_system.Path.{Env, file_path}
use cloud_backup_system.FileUtil.{FileSystem, get_content, uint32_max}
use cloud_backup_system.System.{Outcome, returns, exits, failed, terminated, load_config_file_error}
use cloud_backup_system.Config.{
  Config, ConfigJson, config_file_path, entries_of, read_config_file, get_instance,
}

abbrev pub IsRead : Outcome Config → Option Config → Type 0
IsRead (returns c) o = o ≡ some c
IsRead (exits n) o = (o ≡ none) × ((n ≡ failed load_config_file_error) ⊎ (n ≡ terminated))

module _ (fs : FileSystem) (json : ConfigJson) (env : Env) (w : fs.World) where
  -- The first call of GetInstance gives the configuration that the file holds; where it holds none the
  -- process ends with LOAD_CONFIG_FILE_ERROR or by an exception.
  pub get_instance-IsRead : IsRead (get_instance fs json env w) (read_config_file fs json env w)
  unfolding get_instance read_config_file
  get_instance-IsRead =
      elim (Option-cases (get_content fs (file_path env config_file_path) 0 uint32_max w)) [
        | inl e ↦ rw (e, get_instance) (refl, inl refl)
        | inr (content, e) ↦ elim (Option-cases (json.deserialize content)) [
          | inl f ↦ rw (e, f, get_instance) (refl, inl refl)
          | inr (root, f) ↦ elim (Option-cases (entries_of fs json root)) [
            | inl g ↦ rw (e, f, g, get_instance) (refl, inr refl)
            | inr (c, g) ↦ rw (e, f, g, get_instance) refl
          ]
        ]
      ]
