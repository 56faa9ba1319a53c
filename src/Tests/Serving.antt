-- ===== src/Tests/Serving.antt =====
-- Receiving: a connection with a buffer of 64 bytes, and messages of a few bytes.
use epoll_based_fault_diagno.Base.{
  ℕ, ◌≤◌, ◌+◌, ◌*◌, ◌≡◌, ◌≢◌, refl, inl, true, false, List, [], ◌∷◌, ◌++◌, map, Bytes, none, some,
  pos, length, replicate, splice, length-replicate, arith,
}
use epoll_based_fault_diagno.Socket.{eagain}
use epoll_based_fault_diagno.Wire.{
  is_valid_net_msg_header, read_header, header_bytes, Msg, frame, frames,
}
use epoll_based_fault_diagno.Framing.{scan}
use epoll_based_fault_diagno.Framing.Messages.{AllSendable}
use epoll_based_fault_diagno.Server.Conn.{Conn, IsAllocator}
use epoll_based_fault_diagno.Server.Receive.{
  Receiver, Env, Stats, window, search_header, note_header, skip_bytes, note_length, move_forward,
  to_front, consume, accept_header, resync, fit_buffer, judge_header, call_of, enqueue_block,
  deliver, take_message, find_header_once,
}
use epoll_based_fault_diagno.Server.Receive.Loop.{
  store_received, receive, read_loop, find_header, failed,
}
use epoll_based_fault_diagno.Server.Receive.Window.{InBounds}
use epoll_based_fault_diagno.Server.Receive.Window.Refine.{blocks, Framed, find_header-Framed}
use epoll_based_fault_diagno.Server.Receive.Header.{StopsAtFirst, search_header-StopsAtFirst}
use epoll_based_fault_diagno.Server.Receive.Delivery.{only_wav, receive-frames, receive_overwrites}
use epoll_based_fault_diagno.Server.Receive.Rounds.{Rounds, receive-Rounds}
use epoll_based_fault_diagno.Server.Receive.Stream.{rounds_of, concat, read_loop-frames}

abbrev pub blank_mem : ℕ → Bytes
blank_mem n = replicate n 0

pub blank_mem-IsAllocator : IsAllocator blank_mem
blank_mem-IsAllocator = record { sized = λ n. length-replicate n 0 }

abbrev pub test_env : Env
test_env = record {
  max_net_msg_byte = 100;
  process_thread_cnt = 2;
  mem = blank_mem;
  enqueue = λ calls c. pos 1;
}

abbrev pub test_conn : ℕ → Bytes → Conn
test_conn n buf = record {
  fd = pos 5;
  ip = 1;
  port = 2;
  read_len = n;
  rcv_buf_size = length buf;
  rcv_start_pos = 0;
  rcv_buf = buf;
  net_msg_header = some 0;
  want_read_len = 0;
  rs_que_wait4send = none;
  snd_buf = [];
  want_snd_len = 0;
  original_len = 0;
  sent_len = 0;
  host_name = [];
  close_type = 0;
}

abbrev pub test_stats : Stats
test_stats = record {
  header_err_cnt = 0;
  header_err_bytes = 0;
  head_err = false;
  rcv_pcm_block_cnt = 0;
  mov_buf_cnt = 0;
  discard_cnt = 0;
  discard_bytes = 0;
  total_rcv_bytes = 0;
  max_byte_per_read = 0;
  max_msg_byte = 0;
  rcv_buf_mb = 0;
}

abbrev test_receiver : ℕ → Bytes → Receiver
test_receiver n buf = record {
  conn = test_conn n buf;
  pbuf = 0;
  buf_size = length buf;
  stats = test_stats;
  calls = [];
}

abbrev pub buf64 : Bytes
buf64 = replicate 64 0

abbrev pub idle : Receiver
idle = test_receiver 0 buf64

pub idle-InBounds : InBounds idle
idle-InBounds = record {
  synced = refl;
  room = refl;
  sized = refl;
  bounded = omega arith;
  want_len = inl refl;
}

abbrev pub wav_msg : Msg
wav_msg = record { type = 0; body = 7 ∷ 8 ∷ 9 ∷ [] }

abbrev log_msg : Msg
log_msg = record { type = 1; body = 4 ∷ [] }

abbrev pub two_msgs : List Msg
two_msgs = wav_msg ∷ log_msg ∷ []

pub two_msgs-AllSendable : AllSendable 100 two_msgs
two_msgs-AllSendable = (
  record { type_byte = omega arith; len_word = omega arith; len_below = omega arith },
  (record { type_byte = omega arith; len_word = omega arith; len_below = omega arith }, tt),
)

search_header-StopsAtFirst_example : StopsAtFirst 100 (1 ∷ frame wav_msg) 2 1 (1, true)
unfolding search_header is_valid_net_msg_header read_header frame header_bytes
search_header-StopsAtFirst_example = search_header-StopsAtFirst 100 (1 ∷ frame wav_msg) 2 1

pub limit : 100 + 12 ≤ 512 * 1024 * 1024
limit = omega arith

find_header-Framed_example :
    Framed (scan 100 2 0 (window idle)) (blocks idle.calls) (find_header test_env 2 idle)
find_header-Framed_example =
    find_header-Framed test_env blank_mem-IsAllocator limit 2 idle idle-InBounds

abbrev pub stream : Bytes
stream = frames two_msgs ++ (1 ∷ 2 ∷ [])

receive-frames_example :
    InBounds (receive test_env stream idle)
    × (blocks (receive test_env stream idle).calls ≡ [] ++ map frame (only_wav two_msgs))
    × ((receive test_env stream idle).want_read_len ≡ 0)
    × (window (receive test_env stream idle) ≡ 1 ∷ 2 ∷ [])
unfolding frames frame header_bytes
receive-frames_example =
    receive-frames test_env blank_mem-IsAllocator limit idle two_msgs (1 ∷ 2 ∷ []) idle-InBounds
      refl refl two_msgs-AllSendable (omega arith) (omega arith)

receive-Rounds_example : Rounds test_env (store_received stream idle) (receive test_env stream idle)
receive-Rounds_example = receive-Rounds test_env stream idle

abbrev two_reads : List (List Msg)
two_reads = two_msgs ∷ (wav_msg ∷ []) ∷ []

read_loop-frames_example :
    let out = read_loop test_env (rounds_of two_reads (failed eagain ∷ [])) idle in
    (out.0 ≡ pos 0)
    × (blocks out.1.calls ≡ [] ++ map frame (only_wav (concat two_reads)))
    × InBounds out.1
    × (out.1.read_len ≡ 0)
    × (out.1.want_read_len ≡ 0)
unfolding search_header is_valid_net_msg_header read_header frame frames header_bytes receive
    find_header store_received note_header skip_bytes note_length move_forward to_front consume
    accept_header resync fit_buffer judge_header call_of enqueue_block deliver take_message
    find_header_once splice
read_loop-frames_example =
    read_loop-frames test_env blank_mem-IsAllocator limit idle two_reads eagain idle-InBounds refl
      refl (two_msgs-AllSendable, ((two_msgs-AllSendable.0, tt), tt))
      (omega arith, (omega arith, tt))

-- Two bytes of a header are there already.
abbrev begun : Receiver
begun = test_receiver 2 (1 ∷ 6 ∷ replicate 62 0)

begun-InBounds : InBounds begun
begun-InBounds = record {
  synced = refl;
  room = refl;
  sized = refl;
  bounded = omega arith;
  want_len = inl refl;
}

receive_overwrites_example : window (store_received (0x23 ∷ []) begun) ≢ window begun ++ (0x23 ∷ [])
receive_overwrites_example =
    receive_overwrites (0x23 ∷ []) begun begun-InBounds (omega arith) (omega arith) (omega arith)
      (ground arith)
