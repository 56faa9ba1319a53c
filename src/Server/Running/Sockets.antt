-- ===== src/Server/Running/Sockets.antt =====
-- What readFunc and writeFunc (audioserver/AudioServer.cpp) leave alone of a connection.
use mathlib.Core.Option
use epoll_based_fault_diagno.Base.{
  ℕ, zero, suc, ◌≡◌, refl, ap, sym, drop, ◌∙◌, List, [], ◌∷◌, Bytes, Option, some, ℤ, arith,
  Bool-cases, inl, inr, ◌==◌,
}
use epoll_based_fault_diagno.Socket.{Errno, Sent}
use epoll_based_fault_diagno.Server.Conn.{Conn, malloc_rcv_buf}
use epoll_based_fault_diagno.Server.Receive.{
  Env, Receiver, Stats, EnqueueCall, find_header_once, take_message, judge_header, move_forward,
  fit_buffer, resync, accept_header, skip_bytes, note_header, note_length, drop_too_large, grow_to,
  to_front, deliver, consume, enqueue_block,
}
use epoll_based_fault_diagno.Server.Receive.Loop.{
  Recv, received, closed, failed, find_header, receive, store_received, read_loop, read_func,
  enter_read, leave_read,
}
use epoll_based_fault_diagno.Server.Send.{
  SendOut, SendStats, WriteOut, note_sent, note_result, send_message, tcp_send_data, write_func,
}

-- What only writeFunc and what only readFunc works with, each with the fields that both read.
abbrev pub SendHalf : Type 0
SendHalf = ℤ × Option ℕ × Bytes × ℕ × ℕ × ℕ

abbrev pub send_half : Conn → SendHalf
send_half c = (c.fd, c.rs_que_wait4send, c.snd_buf, c.want_snd_len, c.original_len, c.sent_len)

abbrev pub ReceiveHalf : Type 0
ReceiveHalf = ℤ × ℕ × Bytes × ℕ × ℕ × ℕ × ℕ

abbrev pub receive_half : Conn → ReceiveHalf
receive_half c =
    (c.fd, c.ip, c.rcv_buf, c.rcv_buf_size, c.rcv_start_pos, c.read_len, c.want_read_len)

module _ (e : Env) where
  judge_header_half : (r : Receiver) → send_half ((judge_header e r).conn) ≡ send_half (r.conn)
  unfolding judge_header accept_header note_header resync skip_bytes fit_buffer note_length
      drop_too_large grow_to malloc_rcv_buf
  judge_header_half r = ground arith

  move_forward_half : (r : Receiver) → send_half ((move_forward r).conn) ≡ send_half (r.conn)
  unfolding move_forward to_front
  move_forward_half r = ground arith

  take_message_half : (r : Receiver) → send_half ((take_message e r).1.conn) ≡ send_half (r.conn)
  unfolding take_message consume deliver enqueue_block
  take_message_half r = ground arith

  find_header_once_half :
      (r : Receiver) → send_half ((find_header_once e r).1.conn) ≡ send_half (r.conn)
  unfolding find_header_once
  find_header_once_half r =
      take_message_half (move_forward (judge_header e r))
      ∙ move_forward_half (judge_header e r)
      ∙ judge_header_half r

  find_header_half :
      (fuel : ℕ) (r : Receiver) → send_half ((find_header e fuel r).conn) ≡ send_half (r.conn)
  unfolding find_header
  find_header_half zero r = refl
  find_header_half (suc fuel) r = elim (Bool-cases (find_header_once e r).0) [
    | inl again ↦
        rw again (find_header_half fuel (find_header_once e r).1 ∙ find_header_once_half r)
    | inr out ↦ rw out (find_header_once_half r)
  ]

  read_loop_half :
      (rs : List Recv) (r : Receiver) → send_half ((read_loop e rs r).1.conn) ≡ send_half (r.conn)
  unfolding read_loop receive store_received
  read_loop_half [] r = refl
  read_loop_half (received bs ∷ rs) r =
      read_loop_half rs (receive e bs r)
      ∙ find_header_half (suc (store_received bs r).read_len) (store_received bs r)
  read_loop_half (closed err ∷ rs) r = refl
  read_loop_half (failed err ∷ rs) r = refl

  pub read_func_half :
      (rs : List Recv) (c : Conn) (s : Stats) (calls : List EnqueueCall)
      → send_half ((read_func e rs c s calls).1) ≡ send_half c
  unfolding read_func enter_read leave_read
  read_func_half rs c s calls = read_loop_half rs (enter_read c s calls)

note_result_half :
    (o : SendOut) (c : Conn) (s : SendStats)
    → receive_half ((note_result o c s).conn) ≡ receive_half c
unfolding note_result note_sent
note_result_half o c s = ground arith

send_message_half :
    (rs : List Sent) (errno : Errno) (c : Conn) (s : SendStats) (o : WriteOut)
    → send_message rs errno c s ≡ some o
    → receive_half (o.conn) ≡ receive_half c
unfolding send_message
send_message_half rs errno c s o h =
    let (x, at, same) =
      (Option.map-eq-some_iff (λ x. note_result x c s)
          (tcp_send_data rs (drop c.sent_len c.snd_buf) c.want_snd_len errno)).0
        h in
    ap (λ (x : WriteOut). receive_half x.conn) (sym same) ∙ note_result_half x c s

pub write_func_half :
    (dequeue : List Bytes → ℤ × List Bytes) (queue : List Bytes) (rs : List Sent) (errno : Errno)
    (c : Conn) (s : SendStats) (o : WriteOut × List Bytes)
    → write_func dequeue queue rs errno c s ≡ some o
    → receive_half (o.0.conn) ≡ receive_half c
unfolding write_func
write_func_half dequeue queue rs errno c s o h = elim (Bool-cases (c.want_snd_len == 0)) [
  | inl idle ↦
      ap (λ (x : WriteOut × List Bytes). receive_half x.0.conn)
        (sym (Option.some-injective _ o (rw idle at h)))
  | inr busy ↦
      let (x, at, same) =
        (Option.map-eq-some_iff {B = WriteOut × List Bytes} (λ x. (x, queue))
            (send_message rs errno c s)).0
          (rw busy at h) in
      ap (λ (x : WriteOut × List Bytes). receive_half x.0.conn) (sym same)
      ∙ send_message_half rs errno c s x at
]
