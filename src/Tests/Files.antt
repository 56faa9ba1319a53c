-- ===== src/Tests/Files.antt =====
-- Files, directories and settings read from files.
use epoll_based_fault_diagno.Base.{
  ◌≡◌, Bool, true, false, List, [], ◌∷◌, ◌++◌, Bytes, some, ℤ, pos, arith,
}
use epoll_based_fault_diagno.Config.Written.{Item, heading, entry, closed_entry}
use epoll_based_fault_diagno.Settings.{
  settings, net_settings, system_log_path_key, audio_server_ip_key, audio_server_port_key,
}
use epoll_based_fault_diagno.Server.Settings.Usable.{Usable}
use epoll_based_fault_diagno.Client.Settings.{ClientSettings}
use epoll_based_fault_diagno.Wave.{
  new_wave, wave_bytes, read_wav_head, is_my_pcm, is_wave, read_wav_head-wave_bytes,
}

abbrev mkdir_works : Bytes → Bool
mkdir_works d = true

-- "./a"
abbrev dot_a : Bytes
dot_a = 46 ∷ 47 ∷ 97 ∷ []

-- Both programs' settings: a log path, an address and ports.
abbrev both : List Item
both =
    heading settings
    ∷ entry system_log_path_key (46 ∷ 47 ∷ 97 ∷ [])
    ∷ entry audio_server_ip_key (49 ∷ 46 ∷ 49 ∷ [])
    ∷ entry audio_server_port_key (54 ∷ 53 ∷ 48 ∷ 48 ∷ [])
    ∷ heading net_settings
    ∷ closed_entry audio_server_port_key (54 ∷ 53 ∷ 48 ∷ 48 ∷ []) []
    ∷ []

abbrev atof_zero : Bytes → ℤ
atof_zero s = pos 0

abbrev old_settings : ClientSettings
old_settings = record {
  audio_server_ip = [];
  audio_server_port = 0;
  send_max_flux = 300;
  client_log_path = dot_a;
  status_log_interval = 20;
  write_log = false;
  local_rcv_buf_mb = 512;
  net_rcv_buf_mb = 256;
}

read_wav_head-wave_bytes_example :
    (read_wav_head (some (wave_bytes (new_wave 2) ++ (5 ∷ 6 ∷ []))) (new_wave 0)
      ≡ some (
        pos 44,
        record (new_wave 2) {
          riff = (new_wave 0).riff;
          wave = (new_wave 0).wave;
          fmt = (new_wave 0).fmt;
          un_use = (new_wave 0).un_use;
          data_tag = (new_wave 0).data_tag;
        },
      ))
    × (is_my_pcm (new_wave 2) ≡ true)
    × (is_wave (new_wave 2) ≡ true)
read_wav_head-wave_bytes_example =
    read_wav_head-wave_bytes 2 (5 ∷ 6 ∷ []) (new_wave 0) (omega arith)
