-- ===== src/Server/Settings/Usable.antt =====
-- The settings that the server reads from a file.
use epoll_based_fault_diagno.Base.{◌-◌, ◌≡◌, false, List, Bytes, length, get_or}
use epoll_based_fault_diagno.Settings.{below}
use epoll_based_fault_diagno.Server.Settings.{ServerSettings}

-- Settings that the server can work with: a queue of 512 MB at least, a thread and a second at least, a
-- port that is free to use, and a path that ends with a slash.
pub record Usable (r : ServerSettings × List Bytes) : Type 0 where
  pub queue : below 512 r.0.query_queue_mb ≡ false
  pub threads : below 1 r.0.process_thread_cnt ≡ false
  pub interval : below 1 r.0.status_log_interval ≡ false
  pub port : below 1024 r.0.audio_server_port ≡ false
  pub slash : get_or r.0.system_log_path (length r.0.system_log_path - 1) 0 ≡ 47
