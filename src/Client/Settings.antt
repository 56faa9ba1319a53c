-- ===== src/Client/Settings.antt =====
-- readFunctionConfig of audioclient/ClientManage.cpp, with ReadString and ReadPath.
pub mod Usable
use epoll_based_fault_diagno.Base.{
  ℕ, zero, Bool, true, false, List, [], ◌∷◌, Bytes, Option, none, some, ℤ, pos, negsuc, length, ltb,
  ◌==◌, if◌then◌else◌, and_then,
}
use epoll_based_fault_diagno.Config.{Parser, parse_file, get_value, get_int_value}
use epoll_based_fault_diagno.Paths.{with_slash, my_make_dir}
use epoll_based_fault_diagno.Settings.{
  to_word, to_bool, Outcome, failed, exits, throws, loaded, settings, audio_server_ip_key,
  audio_server_port_key, max_send_mbps_key, log_path_key, status_log_interval_key,
  client_write_log_key, local_rcv_buf_key, net_rcv_buf_key,
}

-- The globals that the function sets; the sizes are uint64_t, the port and the flux uint16_t values.
pub record ClientSettings : Type 0 where
  pub audio_server_ip : Bytes
  pub audio_server_port : ℕ
  pub send_max_flux : ℕ
  pub client_log_path : Bytes
  pub status_log_interval : ℕ
  pub write_log : Bool
  pub local_rcv_buf_mb : ℕ
  pub net_rcv_buf_mb : ℕ

-- ReadString: a string of at least two characters.
unfoldable pub read_string : Bytes → Option Bytes
read_string value = if ltb 1 (length value) then some value else none

-- ReadPath: the path that stands there after the call, and the file system behind myMakeDir. Where
-- there is none the old path stays; the code -5 is not looked at.
unfoldable pub read_path_or : (Bytes → Bool) → Bytes → Bytes → List Bytes → Bytes × List Bytes
unfolding my_make_dir
read_path_or mkdir old value fs =
    if ltb 1 (length value) then (value, (my_make_dir mkdir value fs).1) else (old, fs)

unfoldable pub log_interval : ℕ → ℕ
log_interval n = let m = if ltb n 1 then 20 else n in if ltb 600 m then 600 else m

unfoldable pub buffer_mb : ℕ → ℕ → ℕ
buffer_mb old n = if ltb 32 n then n else old

module _ (mkdir : Bytes → Bool) where
  -- Behind the address of the server.
  unfoldable pub read_rest :
      Parser → Bytes → ClientSettings → List Bytes → Outcome (ClientSettings × List Bytes)
  unfolding get_value get_int_value with_slash read_path_or log_interval buffer_mb
  read_rest p ip s fs =
      let path = read_path_or mkdir s.client_log_path (get_value p settings log_path_key) fs in
      if ltb (to_word 16 (get_int_value p settings audio_server_port_key)) 1
      then throws
      else loaded (
        record {
          audio_server_ip = ip;
          audio_server_port = to_word 16 (get_int_value p settings audio_server_port_key);
          send_max_flux = to_word 16 (get_int_value p settings max_send_mbps_key);
          client_log_path = with_slash path.0;
          status_log_interval =
              log_interval (to_word 64 (get_int_value p settings status_log_interval_key));
          write_log = to_bool (get_int_value p settings client_write_log_key);
          local_rcv_buf_mb =
              buffer_mb s.local_rcv_buf_mb
                (to_word 64 (get_int_value p settings local_rcv_buf_key));
          net_rcv_buf_mb =
              buffer_mb s.net_rcv_buf_mb (to_word 64 (get_int_value p settings net_rcv_buf_key));
        },
        path.1,
      )

  unfoldable pub read_parsed :
      Parser → ClientSettings → List Bytes → Outcome (ClientSettings × List Bytes)
  unfolding get_value read_string read_rest
  read_parsed p s fs =
      elim (read_string (get_value p settings audio_server_ip_key))
        as (λ _. Outcome (ClientSettings × List Bytes)) [
          | none ↦ throws
          | some ip ↦ read_rest p ip s fs
        ]

  -- `none` is a parse that does not end.
  unfoldable pub read_function_config :
      Option Bytes
      → ℕ
      → Parser
      → ClientSettings
      → List Bytes
      → Option (Outcome (ClientSettings × List Bytes))
  unfolding parse_file read_parsed
  read_function_config file errno p s fs =
      and_then (parse_file file errno p)
        (λ r. some (if r.0 == 0 then read_parsed r.1 s fs else failed))
