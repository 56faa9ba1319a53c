-- ===== src/Settings.antt =====
-- What the server and the client share when they read their settings: the names of sections and keys,
-- and the conversions of a long to the types of the variables.
use epoll_based_fault_diagno.Base.{
  ℕ, ◌≡◌, if-cases, ◌-◌, ◌%◌, ◌^◌, Bool, true, false, [], ◌∷◌, Bytes, ℤ, pos, negsuc, ltb, ◌==◌,
  if◌then◌else◌,
}

-- A long as an unsigned word of `w` bits.
abbrev pub to_word : ℕ → ℤ → ℕ
to_word w (pos n) = n % 2 ^ w
to_word w (negsuc n) = 2 ^ w - 1 - n % 2 ^ w

-- A long as an int32_t.
abbrev pub to_int32 : ℤ → ℤ
to_int32 z =
    if ltb (to_word 32 z) (2 ^ 31) then pos (to_word 32 z) else negsuc (2 ^ 32 - 1 - to_word 32 z)

-- z < n
abbrev pub below : ℕ → ℤ → Bool
below n (pos k) = ltb k n
below n (negsuc k) = true

abbrev pub to_bool : ℤ → Bool
to_bool (pos n) = if n == 0 then false else true
to_bool (negsuc n) = true

-- How reading the settings ends: it returns -1, exits, throws, or has what it read.
pub data Outcome {ℓ} (A : Type ℓ) : Type ℓ where
  failed exits throws : Outcome A
  loaded : A → Outcome A

-- What holds of the settings, if any are read.
abbrev pub Holds {ℓ ℓ'} : {A : Type ℓ} → (A → Type ℓ') → Outcome A → Type ℓ'
Holds P failed = Unit
Holds P exits = Unit
Holds P throws = Unit
Holds P (loaded a) = P a

-- A number, or another where it is below a bound.
abbrev pub at_least : ℕ → ℤ → ℤ → ℤ
at_least n other z = if below n z then other else z

pub at_least-below :
    (n : ℕ) (other z : ℤ) → below n other ≡ false → below n (at_least n other z) ≡ false
at_least-below n other z h =
    if-cases (λ y. below n y ≡ false) (below n z) other z (λ low. h) (λ fine. fine)

-- "Settings"
abbrev pub settings : Bytes
settings = 83 ∷ 101 ∷ 116 ∷ 116 ∷ 105 ∷ 110 ∷ 103 ∷ 115 ∷ []

-- "NetSettings"
abbrev pub net_settings : Bytes
net_settings = 78 ∷ 101 ∷ 116 ∷ 83 ∷ 101 ∷ 116 ∷ 116 ∷ 105 ∷ 110 ∷ 103 ∷ 115 ∷ []

-- "QueryQueueMB"
abbrev pub query_queue_mb_key : Bytes
query_queue_mb_key = 81 ∷ 117 ∷ 101 ∷ 114 ∷ 121 ∷ 81 ∷ 117 ∷ 101 ∷ 117 ∷ 101 ∷ 77 ∷ 66 ∷ []

-- "NotConcurentQueryAudioDLL"
abbrev pub not_concurrent_key : Bytes
not_concurrent_key =
    78 ∷ 111 ∷ 116 ∷ 67 ∷ 111 ∷ 110 ∷ 99 ∷ 117 ∷ 114 ∷ 101 ∷ 110 ∷ 116 ∷ 81 ∷ 117 ∷ 101 ∷ 114 ∷ 121
    ∷ 65 ∷ 117 ∷ 100 ∷ 105 ∷ 111 ∷ 68 ∷ 76 ∷ 76 ∷ []

-- "SystemLogPath"
abbrev pub system_log_path_key : Bytes
system_log_path_key = 83 ∷ 121 ∷ 115 ∷ 116 ∷ 101 ∷ 109 ∷ 76 ∷ 111 ∷ 103 ∷ 80 ∷ 97 ∷ 116 ∷ 104 ∷ []

-- "StatusLogInterval"
abbrev pub status_log_interval_key : Bytes
status_log_interval_key =
    83 ∷ 116 ∷ 97 ∷ 116 ∷ 117 ∷ 115 ∷ 76 ∷ 111 ∷ 103 ∷ 73 ∷ 110 ∷ 116 ∷ 101 ∷ 114 ∷ 118 ∷ 97 ∷ 108
    ∷ []

-- "AudioServerTest"
abbrev pub audio_server_test_key : Bytes
audio_server_test_key =
    65 ∷ 117 ∷ 100 ∷ 105 ∷ 111 ∷ 83 ∷ 101 ∷ 114 ∷ 118 ∷ 101 ∷ 114 ∷ 84 ∷ 101 ∷ 115 ∷ 116 ∷ []

-- "ProcessThreadCnt"
abbrev pub process_thread_cnt_key : Bytes
process_thread_cnt_key =
    80 ∷ 114 ∷ 111 ∷ 99 ∷ 101 ∷ 115 ∷ 115 ∷ 84 ∷ 104 ∷ 114 ∷ 101 ∷ 97 ∷ 100 ∷ 67 ∷ 110 ∷ 116 ∷ []

-- "AudioServerPort"
abbrev pub audio_server_port_key : Bytes
audio_server_port_key =
    65 ∷ 117 ∷ 100 ∷ 105 ∷ 111 ∷ 83 ∷ 101 ∷ 114 ∷ 118 ∷ 101 ∷ 114 ∷ 80 ∷ 111 ∷ 114 ∷ 116 ∷ []

-- "MaxNetMsgByte"
abbrev pub max_net_msg_byte_key : Bytes
max_net_msg_byte_key = 77 ∷ 97 ∷ 120 ∷ 78 ∷ 101 ∷ 116 ∷ 77 ∷ 115 ∷ 103 ∷ 66 ∷ 121 ∷ 116 ∷ 101 ∷ []

-- "AudioServerWriteLog"
abbrev pub write_log_key : Bytes
write_log_key =
    65 ∷ 117 ∷ 100 ∷ 105 ∷ 111 ∷ 83 ∷ 101 ∷ 114 ∷ 118 ∷ 101 ∷ 114 ∷ 87 ∷ 114 ∷ 105 ∷ 116 ∷ 101 ∷ 76
    ∷ 111 ∷ 103 ∷ []

-- "AudioServerOutputBaseNum"
abbrev pub output_base_num_key : Bytes
output_base_num_key =
    65 ∷ 117 ∷ 100 ∷ 105 ∷ 111 ∷ 83 ∷ 101 ∷ 114 ∷ 118 ∷ 101 ∷ 114 ∷ 79 ∷ 117 ∷ 116 ∷ 112 ∷ 117 ∷ 116
    ∷ 66 ∷ 97 ∷ 115 ∷ 101 ∷ 78 ∷ 117 ∷ 109 ∷ []

-- "AudioServerIP"
abbrev pub audio_server_ip_key : Bytes
audio_server_ip_key = 65 ∷ 117 ∷ 100 ∷ 105 ∷ 111 ∷ 83 ∷ 101 ∷ 114 ∷ 118 ∷ 101 ∷ 114 ∷ 73 ∷ 80 ∷ []

-- "MaxSendMbps"
abbrev pub max_send_mbps_key : Bytes
max_send_mbps_key = 77 ∷ 97 ∷ 120 ∷ 83 ∷ 101 ∷ 110 ∷ 100 ∷ 77 ∷ 98 ∷ 112 ∷ 115 ∷ []

-- "LogPath"
abbrev pub log_path_key : Bytes
log_path_key = 76 ∷ 111 ∷ 103 ∷ 80 ∷ 97 ∷ 116 ∷ 104 ∷ []

-- "AudioClientWriteLog"
abbrev pub client_write_log_key : Bytes
client_write_log_key =
    65 ∷ 117 ∷ 100 ∷ 105 ∷ 111 ∷ 67 ∷ 108 ∷ 105 ∷ 101 ∷ 110 ∷ 116 ∷ 87 ∷ 114 ∷ 105 ∷ 116 ∷ 101 ∷ 76
    ∷ 111 ∷ 103 ∷ []

-- "CLIENT_LOCAL_RCV_BUF_MB"
abbrev pub local_rcv_buf_key : Bytes
local_rcv_buf_key =
    67 ∷ 76 ∷ 73 ∷ 69 ∷ 78 ∷ 84 ∷ 95 ∷ 76 ∷ 79 ∷ 67 ∷ 65 ∷ 76 ∷ 95 ∷ 82 ∷ 67 ∷ 86 ∷ 95 ∷ 66 ∷ 85
    ∷ 70 ∷ 95 ∷ 77 ∷ 66 ∷ []

-- "CLIENT_NET_RCV_BUF_MB"
abbrev pub net_rcv_buf_key : Bytes
net_rcv_buf_key =
    67 ∷ 76 ∷ 73 ∷ 69 ∷ 78 ∷ 84 ∷ 95 ∷ 78 ∷ 69 ∷ 84 ∷ 95 ∷ 82 ∷ 67 ∷ 86 ∷ 95 ∷ 66 ∷ 85 ∷ 70 ∷ 95
    ∷ 77 ∷ 66 ∷ []
