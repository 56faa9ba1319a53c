-- ===== src/Server/Settings.antt =====
-- ReadPath and readConfig of audioserver/global.cpp. The two coordination rates, which are floating
-- point numbers that nothing else here uses, are left out; `atof32` is atof as an int32_t.
pub mod Usable
use epoll_based_fault_diagno.Base.{
  ℕ, ◌+◌, ◌-◌, ◌*◌, ◌%◌, ◌^◌, ◌≡◌, refl, Bool, true, false, not, List, [], ◌∷◌, ◌++◌, Bytes, Option,
  none, some, ℤ, pos, negsuc, is_neg, is_pos, length, get_or, leb, ltb, ◌==◌, if◌then◌else◌,
  Bool-cases, if-cases, and_then, arith, inl, inr, get_or-append, ap, ◌∙◌,
}
use mathlib.Core.Option
use epoll_based_fault_diagno.Config.{Parser, parse_file, get_value, get_int_value}
use epoll_based_fault_diagno.Paths.{with_slash, my_make_dir}
use epoll_based_fault_diagno.Settings.{
  at_least, to_word, to_int32, below, to_bool, Outcome, failed, exits, throws, loaded, settings,
  net_settings, query_queue_mb_key, not_concurrent_key, system_log_path_key,
  status_log_interval_key, audio_server_test_key, process_thread_cnt_key, audio_server_port_key,
  max_net_msg_byte_key, write_log_key, output_base_num_key,
}

pub record ServerSettings : Type 0 where
  pub query_queue_mb : ℤ
  pub not_concurrent_query : Bool
  pub system_log_path : Bytes
  pub status_log_interval : ℤ
  pub is_test : ℤ
  pub process_thread_cnt : ℤ
  pub audio_server_port : ℤ
  pub max_net_msg_byte : ℕ
  pub print_result_log : Bool
  pub output_base_num : ℤ

-- `n*1024` is a product of int32_t, taken as a uint32_t.
unfoldable pub message_limit : ℤ → ℕ
message_limit n = if is_pos n then to_word 32 n * 1024 % 2 ^ 32 else 1024 * 1024

-- ReadPath with `bReportErr`: the path with a slash at its end, and the file system behind myMakeDir;
-- or it exits.
unfoldable pub read_path : (Bytes → Bool) → Bytes → List Bytes → Outcome (Bytes × List Bytes)
unfolding with_slash my_make_dir
read_path mkdir value fs =
    if ltb 1 (length value)
    then loaded (with_slash value, (my_make_dir mkdir value fs).1)
    else exits

module _ (mkdir : Bytes → Bool) (atof32 : Bytes → ℤ) where
  -- What stands behind the path of the log; `throw` is for a port below 1024.
  unfoldable pub read_numbers : Parser → Bytes → List Bytes → Outcome (ServerSettings × List Bytes)
  unfolding get_value get_int_value message_limit
  read_numbers p path fs =
      if below 1024 (to_int32 (get_int_value p net_settings audio_server_port_key))
      then throws
      else loaded (
        record {
          query_queue_mb = at_least 512 (pos 512) (get_int_value p settings query_queue_mb_key);
          not_concurrent_query = to_bool (get_int_value p settings not_concurrent_key);
          system_log_path = path;
          status_log_interval =
              at_least 1 (pos 20) (atof32 (get_value p settings status_log_interval_key));
          is_test =
              (let t = to_int32 (get_int_value p settings audio_server_test_key) in
                elim t as (λ _. ℤ) [
                  | pos k ↦ if k == 0 then pos 0 else pos (k + 1)
                  | negsuc k ↦ negsuc k
                ]);
          process_thread_cnt =
              at_least 1 (pos 1) (to_int32 (get_int_value p settings process_thread_cnt_key));
          audio_server_port = to_int32 (get_int_value p net_settings audio_server_port_key);
          max_net_msg_byte =
              message_limit (to_int32 (get_int_value p net_settings max_net_msg_byte_key));
          print_result_log = to_bool (get_int_value p settings write_log_key);
          output_base_num = to_int32 (get_int_value p settings output_base_num_key);
        },
        fs,
      )

  unfoldable pub read_values : Parser → List Bytes → Outcome (ServerSettings × List Bytes)
  unfolding get_value read_path read_numbers
  read_values p fs =
      elim (read_path mkdir (get_value p settings system_log_path_key) fs)
        as (λ _. Outcome (ServerSettings × List Bytes)) [
          | failed ↦ failed
          | exits ↦ exits
          | throws ↦ throws
          | loaded (path, fs') ↦ read_numbers p path fs'
        ]

  -- The file is there or not, and opens with its text or an errno; `none` is a parse that does not
  -- end. parseFile fails for the test below 0 only, and its codes are not below 0.
  unfoldable pub read_config :
      Bool → Option Bytes → ℕ → Parser → List Bytes → Option (Outcome (ServerSettings × List Bytes))
  unfolding parse_file read_values
  read_config there file errno p fs =
      if there
      then and_then (parse_file file errno p)
          (λ r. some (if is_neg (pos r.0) then failed else read_values r.1 fs))
      else some failed
