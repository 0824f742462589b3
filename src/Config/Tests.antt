-- ===== src/Config/Tests.antt =====
-- A configuration, from a parser that knows the one text that the disk holds.
use cloud_backup_system.Common.{some, [], ◌∷◌, Bytes, bytes, bytes_eq, pos, if◌then◌else◌}
use cloud_backup_system.DataManager.Tests.{Disk}
use cloud_backup_system.Config.{ConfigJson, Config}

abbrev pub config_disk : Disk
config_disk = (bytes "/srv/config.json", bytes "{}") ∷ []

-- Each member is a number or a text as it is asked for.
abbrev pub config_json : ConfigJson
config_json = record {
  Value = Bytes;
  deserialize = λ text. some text;
  as_uint = λ key v. some (if bytes_eq key (bytes "server_port") then 70000 else 8);
  as_int = λ key v. some (pos 4);
  as_int64 = λ key v. some (pos 4096);
  as_string = λ key v. some (bytes "/b");
}

abbrev pub config : Config
config = record {
  server_port = 4464;
  log_filepath = bytes "/b";
  roll_file_size = pos 4096;
  lru_file_capacity = 8;
  lru_file_content_size = pos 4096;
  max_file_read_size = pos 4096;
  tcp_buffer_read_size = pos 4096;
  thread_pool_queue_capacity = pos 4;
  thread_pool_threads_size = pos 4;
  listen_queue_size = pos 4;
  epoll_events_size = pos 4;
  per_handle_request_size = 8;
  data_manager_filepath = bytes "/b";
  backup_file_dir = bytes "/b";
}
