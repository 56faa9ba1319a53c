-- ===== src/Client/Settings/Usable.antt =====
-- The settings that the client reads from a file.
use epoll_based_fault_diagno.Base.{◌-◌, ◌≤◌, ◌<◌, ◌≡◌, List, Bytes, Option, length, get_or}
use mathlib.Core.Option
use epoll_based_fault_diagno.Client.Settings.{ClientSettings}

-- A server address, a port that is not 0, an interval of 1 to 600 seconds, and a path that ends with a
-- slash.
pub record UsableClient (r : ClientSettings × List Bytes) : Type 0 where
  pub address : 1 < length r.0.audio_server_ip
  pub port : 1 ≤ r.0.audio_server_port
  pub least : 1 ≤ r.0.status_log_interval
  pub most : r.0.status_log_interval ≤ 600
  pub slash : get_or r.0.client_log_path (length r.0.client_log_path - 1) 0 ≡ 47
