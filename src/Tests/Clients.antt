-- ===== src/Tests/Clients.antt =====
-- The client: a buffer of 64 bytes, and messages of a few bytes.
use epoll_based_fault_diagno.Base.{
  ℕ, zero, suc, ◌≡◌, refl, inr, true, false, List, [], ◌∷◌, ◌++◌, Bytes, Option, none, some, pos,
  negsuc, drop, replicate, arith,
}
use epoll_based_fault_diagno.Socket.{eintr, other}
use epoll_based_fault_diagno.Wire.{Msg, frame, frames, header_bytes, read_header, confirm_num}
use epoll_based_fault_diagno.Framing.Messages.{AllSendable}
use epoll_based_fault_diagno.Client.Incoming.{
  Incoming, received, memory, receive_incoming, confirm_of,
}
use epoll_based_fault_diagno.Client.Incoming.Step.{Sound, max_body}
use epoll_based_fault_diagno.Client.Incoming.Stream.{Found, receive_incoming-frames}
use epoll_based_fault_diagno.Client.Incoming.Overrun.{Silent, receive_incoming_overruns}
use epoll_based_fault_diagno.Client.Outgoing.{
  SendAnswer, gave, failed, Outgoing, send_rounds, send_round, send_pending, after_send,
  note_sent_bytes, load_message,
}
use epoll_based_fault_diagno.Client.Outgoing.Conserved.{
  IsBlock, AllBlocks, Takes, offered, AllTake, due, send_rounds-Keeps,
}
use epoll_based_fault_diagno.Queue.{IsFifo}
use epoll_based_fault_diagno.Client.Tcp.{
  Sys, TcpClient, Connected, connect_server, connect_server-Connected,
}
use epoll_based_fault_diagno.Client.Connection.{Link, Linked, connect_loop, connect_loop-Linked}
use epoll_based_fault_diagno.Client.Header.{
  HeaderReader, Pieces, answers_of, read_header_func, read_header_func-Pieces,
}

abbrev empty_mem : ℕ → Bytes
empty_mem n = replicate n 0

-- `n` bytes are received, from offset `at` on.
abbrev incoming_at : ℕ → ℕ → ℕ → Bytes → Incoming
incoming_at at room n buf = record {
  rcv_buf = buf;
  rcv_buf_size = 64;
  rcv_start_pos = at;
  pbuf = at;
  available = room;
  msg_bytes = 0;
  read_len = n;
  head_err = false;
  header_err_cnt = 0;
  header_err_bytes = 0;
  total_rcv_bytes = 0;
  rcv_buf_size_mb = 16;
  network_error = false;
  blocks = [];
}

abbrev short_msg : Msg
short_msg = record { type = 4; body = 7 ∷ [] }

short_msg-AllSendable : AllSendable max_body (short_msg ∷ [])
short_msg-AllSendable =
    (record { type_byte = omega arith; len_word = omega arith; len_below = omega arith }, tt)

-- The first two bytes of the message are there, behind four that were consumed.
abbrev two_bytes : Incoming
two_bytes = incoming_at 4 60 2 (0 ∷ 0 ∷ 0 ∷ 0 ∷ 1 ∷ 6 ∷ replicate 58 0)

two_bytes-Sound : Sound two_bytes
two_bytes-Sound = record {
  synced = refl;
  room = refl;
  sized = refl;
  bounded = omega arith;
  word = omega arith;
}

abbrev rest_of_frame : Bytes
rest_of_frame = 0x23 ∷ 0x20 ∷ 1 ∷ 0 ∷ 0 ∷ 0 ∷ 4 ∷ 0 ∷ 0 ∷ 0 ∷ 7 ∷ []

rejoined : received two_bytes ++ (rest_of_frame ++ (1 ∷ [])) ≡ frames (short_msg ∷ []) ++ (1 ∷ [])
unfolding frames frame header_bytes
rejoined = refl

receive_incoming-frames_example :
    (i' : Incoming) × (receive_incoming empty_mem (rest_of_frame ++ (1 ∷ [])) two_bytes ≡ some i')
    × Found two_bytes (short_msg ∷ []) (1 ∷ []) i'
receive_incoming-frames_example =
    receive_incoming-frames empty_mem (rest_of_frame ++ (1 ∷ [])) two_bytes short_msg [] (1 ∷ [])
      two_bytes-Sound refl (omega arith) rejoined short_msg-AllSendable (omega arith)

receive_incoming_overruns_example : receive_incoming empty_mem (replicate 62 0) two_bytes ≡ none
receive_incoming_overruns_example =
    receive_incoming_overruns empty_mem (replicate 62 0) two_bytes two_bytes-Sound (omega arith)
      refl

-- A buffer with nothing but zeros from its last bytes on.
abbrev at_end : Incoming
at_end = incoming_at 62 2 1 (replicate 64 0)

at_end-Silent : Silent (memory at_end)
unfolding Silent confirm_of
at_end-Silent zero n e = ground arith
at_end-Silent (suc zero) n e = ground arith
at_end-Silent (suc (suc zero)) n e = ground arith
at_end-Silent (suc (suc (suc k))) n e = ground arith

abbrev pub head_first : List Bytes → Option (Bytes × List Bytes)
head_first [] = none
head_first (b ∷ bs) = some (b, bs)

pub head_first-IsFifo : IsFifo head_first
head_first-IsFifo = record { on_empty = refl; on_block = λ b bs. refl }

-- A message of 13 bytes in the queue.
abbrev pub one_queued : Outgoing
one_queued = record {
  send_buf = [];
  want_send_len = 0;
  sent_bytes = 0;
  sleep_times = 0;
  total_data_bytes = 0;
  send_bytes = 0;
  network_error = false;
  queue = (1 ∷ 6 ∷ rest_of_frame) ∷ [];
}

one_queued-AllBlocks : AllBlocks one_queued.queue
unfolding AllBlocks IsBlock read_header
one_queued-AllBlocks = (refl, refl)

abbrev answers : List SendAnswer
answers = failed other ∷ gave 10 eintr ∷ gave 3 eintr ∷ []

answers-AllTake : AllTake head_first head_first-IsFifo answers one_queued
unfolding AllTake Takes offered send_round send_pending after_send note_sent_bytes load_message
    read_header
answers-AllTake = (refl, (inr (omega arith, omega arith), (inr (omega arith, omega arith), refl)))

send_rounds-Keeps_example :
    (send_rounds head_first answers one_queued).0
      ++ due (send_rounds head_first answers one_queued).1
    ≡ due one_queued
send_rounds-Keeps_example =
    send_rounds-Keeps head_first head_first-IsFifo answers one_queued one_queued-AllBlocks
      answers-AllTake

abbrev pub refusing : Sys
refusing = record { socket = pos 3; connect = λ ip port. negsuc 0; setsockopt = λ o v. pos 0 }

abbrev pub accepting : Sys
accepting = record { socket = pos 3; connect = λ ip port. pos 0; setsockopt = λ opt v. pos 0 }

abbrev pub new_client : TcpClient
new_client = record {
  sock_fd = negsuc 0;
  net_ok = false;
  send_bytes = 0;
  send_max_flux = 0;
  dest_ip = 0;
  dest_port = 0;
  open_fds = [];
}

connect_server-Connected_example :
    Connected refusing new_client (connect_server refusing 1 6500 true 300 new_client)
connect_server-Connected_example = connect_server-Connected refusing 1 6500 true 300 new_client

abbrev cut_off : Link
cut_off = record {
  tcp = record new_client { sock_fd = pos 2; open_fds = pos 2 ∷ [] };
  network_error = true;
}

connect_loop-Linked_example : Linked cut_off (connect_loop (refusing ∷ accepting ∷ []) 300 cut_off)
connect_loop-Linked_example = connect_loop-Linked (refusing ∷ accepting ∷ []) 300 cut_off refl

abbrev header12 : Bytes
header12 = 1 ∷ 6 ∷ 0x23 ∷ 0x20 ∷ 1 ∷ 0 ∷ 0 ∷ 0 ∷ 4 ∷ 0 ∷ 0 ∷ 0 ∷ []

abbrev two_pieces : List Bytes
two_pieces = (1 ∷ 6 ∷ []) ∷ (0x23 ∷ 0x20 ∷ 1 ∷ 0 ∷ 0 ∷ 0 ∷ 4 ∷ 0 ∷ 0 ∷ 0 ∷ []) ∷ []

two_pieces-Pieces : Pieces two_pieces header12
unfolding Pieces
two_pieces-Pieces = (drop 2 header12, omega arith, refl, ([], omega arith, refl, refl))

header12_right : (read_header header12).confirm ≡ confirm_num
unfolding read_header
header12_right = refl

abbrev no_header : HeaderReader
no_header = record {
  unit_header = replicate 12 0;
  h_read_len = 0;
  network_error = false;
  header_err_cnt = 0;
}

read_header_func-Pieces_example :
    (r' : HeaderReader) × (read_header_func (answers_of two_pieces) no_header ≡ some (pos 0, r'))
    × (r'.unit_header ≡ header12)
    × (r'.h_read_len ≡ 0)
read_header_func-Pieces_example =
    read_header_func-Pieces header12 two_pieces no_header refl header12_right refl refl
      two_pieces-Pieces
