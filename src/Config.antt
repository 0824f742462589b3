-- ===== src/Config.antt =====
-- config.hpp: the configuration that is read once from a file. JsonCpp is a parameter: a parsed
-- value, and the member of a key as `asUInt`, `asInt`, `asInt64` and `asString` give it.
pub mod Instance
pub mod Tests
use cloud_backup_system.Common.{ℕ, ◌%◌, ◌^◌, Option, none, some, ◌>>=◌, Bytes, bytes, ℤ}
use cloud_backup_system.Path.{Env, file_path}
use cloud_backup_system.FileUtil.{FileSystem, get_content, uint32_max}
use cloud_backup_system.DataManager.{Settings, to_u64}
use cloud_backup_system.System.{Outcome, returns, exits, failed, terminated, load_config_file_error}

-- `none` is an error of the parser, or an exception.
pub record ConfigJson : Type 1 where
  pub Value : Type 0
  pub deserialize : Bytes → Option Value
  pub as_uint : Bytes → Value → Option ℕ
  pub as_int : Bytes → Value → Option ℤ
  pub as_int64 : Bytes → Value → Option ℤ
  pub as_string : Bytes → Value → Option Bytes

pub record Config : Type 0 where
  pub server_port : ℕ
  pub log_filepath : Bytes
  pub roll_file_size : ℤ
  pub lru_file_capacity : ℕ
  pub lru_file_content_size : ℤ
  pub max_file_read_size : ℤ
  pub tcp_buffer_read_size : ℤ
  pub thread_pool_queue_capacity : ℤ
  pub thread_pool_threads_size : ℤ
  pub listen_queue_size : ℤ
  pub epoll_events_size : ℤ
  pub per_handle_request_size : ℕ
  pub data_manager_filepath : Bytes
  pub backup_file_dir : Bytes

abbrev pub config_file_path : Bytes
config_file_path = bytes "./config.json"

-- What the manager takes of it: a length is compared with the bytes in the cache as a size_t.
abbrev pub settings_of : Env → Config → Settings
settings_of env c = record {
  env = env;
  backup_file_dir = c.backup_file_dir;
  data_manager_filepath = c.data_manager_filepath;
  lru_file_capacity = c.lru_file_capacity;
  lru_file_content_size = to_u64 c.lru_file_content_size;
}

module _ (fs : FileSystem) (json : ConfigJson) where
  open fs use {World}
  open json use {Value, deserialize, as_uint, as_int, as_int64, as_string}

  -- The entries; a port is an uint16_t.
  unfoldable pub entries_of : Value → Option Config
  entries_of root = do
    port ← as_uint (bytes "server_port") root
    log ← as_string (bytes "log_filepath") root
    roll ← as_int64 (bytes "roll_file_size") root
    capacity ← as_uint (bytes "LRU_file_capacity") root
    content ← as_int64 (bytes "LRU_file_content_size") root
    max_read ← as_int64 (bytes "max_file_read_size") root
    tcp_read ← as_int64 (bytes "TCP_buffer_read_size") root
    queue ← as_int (bytes "thread_pool_queue_capacity") root
    threads ← as_int (bytes "thread_pool_threads_size") root
    listen ← as_int (bytes "listen_queue_size") root
    events ← as_int (bytes "epoll_events_size") root
    per_handle ← as_uint (bytes "per_handle_request_size") root
    data_file ← as_string (bytes "data_manager_filepath") root
    dir ← as_string (bytes "backup_file_dir") root
    some (record {
      server_port = port % 2 ^ 16;
      log_filepath = log;
      roll_file_size = roll;
      lru_file_capacity = capacity;
      lru_file_content_size = content;
      max_file_read_size = max_read;
      tcp_buffer_read_size = tcp_read;
      thread_pool_queue_capacity = queue;
      thread_pool_threads_size = threads;
      listen_queue_size = listen;
      epoll_events_size = events;
      per_handle_request_size = per_handle;
      data_manager_filepath = data_file;
      backup_file_dir = dir;
    })

  -- ReadConfigFile; `none` is an exit of the program or an exception.
  unfoldable pub read_config_file : Env → World → Option Config
  unfolding entries_of
  read_config_file env w = do
    content ← get_content fs (file_path env config_file_path) 0 uint32_max w
    root ← deserialize content
    entries_of root

  -- GetInstance, the first time: ReadConfigFile with its exits. An accessor of JsonCpp can throw.
  unfoldable pub get_instance : Env → World → Outcome Config
  unfolding entries_of
  get_instance env w = elim (get_content fs (file_path env config_file_path) 0 uint32_max w) [
    | none ↦ exits (failed load_config_file_error)
    | some content ↦ elim (deserialize content) [
      | none ↦ exits (failed load_config_file_error)
      | some root ↦ elim (entries_of root) [ none ↦ exits terminated | some c ↦ returns c ]
    ]
  ]
