-- ===== src/Tests/Sending.antt =====
-- Sending: a message of four bytes.
use epoll_based_fault_diagno.Base.{
  ℕ, ◌≡◌, refl, inr, false, List, [], ◌∷◌, Bytes, some, ℤ, pos, negsuc, is_neg, length, arith,
}
use epoll_based_fault_diagno.Socket.{Sent, sent, refused, eagain, eintr, other}
use epoll_based_fault_diagno.Server.Conn.{Conn}
use epoll_based_fault_diagno.Server.Send.{
  SendOut, SendStats, WriteOut, tcp_send_data, write_func, send_message, send_loop, note_result,
}
use epoll_based_fault_diagno.Server.Send.Prefix.{Obeys, SendsPrefix, tcp_send_data-Returns}
use epoll_based_fault_diagno.Server.Send.Write.{write_func-code}

abbrev msg4 : Bytes
msg4 = 1 ∷ 2 ∷ 3 ∷ 4 ∷ []

-- Three bytes go out, then the send buffer is full.
abbrev full_buffer : List Sent
full_buffer = sent 1 ∷ sent 2 ∷ refused eagain ∷ refused eagain ∷ []

full_buffer-Obeys : Obeys full_buffer 4
full_buffer-Obeys = inr (omega arith, omega arith, inr (omega arith, omega arith, tt))

tcp_send_data-Returns_example :
    (o : SendOut) × (tcp_send_data full_buffer msg4 4 eintr ≡ some o)
    × SendsPrefix full_buffer msg4 o
tcp_send_data-Returns_example =
    tcp_send_data-Returns full_buffer msg4 eintr (omega arith) full_buffer-Obeys

-- One byte of the message is out.
abbrev sending_conn : ℕ → ℕ → Conn
sending_conn out left = record {
  fd = pos 5;
  ip = 1;
  port = 2;
  read_len = 0;
  rcv_buf_size = 0;
  rcv_start_pos = 0;
  rcv_buf = [];
  net_msg_header = some 0;
  want_read_len = 0;
  rs_que_wait4send = some 0;
  snd_buf = 9 ∷ msg4;
  want_snd_len = left;
  original_len = 5;
  sent_len = out;
  host_name = [];
  close_type = 0;
}

abbrev no_stats : SendStats
no_stats = record { sent_cnt = 0; send_fail_cnt = 0; re_send_cnt0 = 0; re_send_cnt1 = 0 }

-- A queue that gives its first block.
abbrev first_block : List Bytes → ℤ × List Bytes
first_block [] = (pos 0, [])
first_block (b ∷ bs) = (pos (length b), bs)

-- After a send that fails for good.
unfoldable failed_out : WriteOut
unfolding note_result
failed_out =
    note_result (record { ret = negsuc 0; errno = other; wire = []; unused = [] })
      (sending_conn 1 4) no_stats

failed_run :
    write_func first_block [] (refused other ∷ []) eintr (sending_conn 1 4) no_stats
    ≡ some (failed_out, [])
unfolding write_func send_message tcp_send_data send_loop failed_out note_result
failed_run = refl

write_func-code_example : is_neg failed_out.code ≡ false
write_func-code_example =
    write_func-code first_block [] (refused other ∷ []) eintr (sending_conn 1 4) no_stats
      {o = (failed_out, [])} failed_run
