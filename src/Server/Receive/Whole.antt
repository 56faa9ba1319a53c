-- ===== src/Server/Receive/Whole.antt =====
-- AudioServer::readFunc (audioserver/AudioServer.cpp) on whole messages: they are taken where they
-- stand, and the buffer is used up behind them.
use epoll_based_fault_diagno.Base.{
  ℕ, zero, suc, ◌+◌, ◌≤◌, ◌≡◌, ◌≢◌, refl, ap, sym, ◌∙◌, true, List, [], ◌∷◌, ◌++◌, Bytes, arith,
  length, length-append, drop, drop-append, leb, le→leb, ne→==, not_lt→ltb, not_le→leb, eq→==,
  append-nil,
}
use epoll_based_fault_diagno.Wire.{
  NetMsgHeader, net_msg_header_len, read_header, is_valid_net_msg_header, Msg, frame, frames,
  IsSendable,
}
use epoll_based_fault_diagno.Wire.Codec.{
  read_header-take, read_header-frame, is_valid-frame, length-frame,
}
use epoll_based_fault_diagno.Framing.Messages.{AllSendable, length-frames}
use epoll_based_fault_diagno.Server.Receive.{
  Receiver, Env, at_pbuf, message_len, window, note_header, note_length, accept_header, resync,
  fit_buffer, judge_header, move_forward, take_message, deliver, consume, find_header_once,
}
use epoll_based_fault_diagno.Server.Receive.Loop.{find_header, store_received, receive}
use epoll_based_fault_diagno.Server.Receive.Window.{InBounds, length-window}
use epoll_based_fault_diagno.Server.Receive.Window.Judge.{note_length-Moved, note_header-InBounds}
use epoll_based_fault_diagno.Server.Receive.Window.Refine.{
  deliver-SameBuffer, consumed-InBounds, consumed-window,
}
use epoll_based_fault_diagno.Server.Receive.Delivery.{store_received-InBounds}

-- A whole message stands at the front of what was received.
record AtMessage (max : ℕ) (m : Msg) (rest : Bytes) (r : Receiver) : Type 0 where
  in_bounds : InBounds r
  idle : r.want_read_len ≡ 0
  front : window r ≡ frame m ++ rest
  sendable : IsSendable max m

message_read :
    (max : ℕ) (m : Msg) (rest : Bytes) (r : Receiver)
    → AtMessage max m rest r
    → r.read_len ≡ length (frame m) + length rest
message_read max m rest r v =
    sym (length-window r v.in_bounds) ∙ ap length v.front ∙ length-append (frame m) rest

message_header :
    (max : ℕ) (m : Msg) (rest : Bytes) (r : Receiver)
    → AtMessage max m rest r
    → read_header (at_pbuf r) ≡ read_header (frame m ++ rest)
message_header max m rest r v =
    sym (
      read_header-take r.read_len (at_pbuf r)
        (omega (arith, message_read max m rest r v, length-frame m)))
    ∙ ap read_header v.front

module _ (e : Env) where
  -- The message is taken where it stands: nothing is moved.
  taken : Receiver → Receiver
  taken r = consume (deliver e (note_length (note_header r)))

  module _ (m : Msg) (rest : Bytes) (r : Receiver) (v : AtMessage e.max_net_msg_byte m rest r) where
    noted : Receiver
    noted = note_length (note_header r)

    want_message : message_len (at_pbuf r) ≡ length (frame m)
    want_message =
        ap (λ (h : NetMsgHeader). h.msg_len + net_msg_header_len)
          (message_header e.max_net_msg_byte m rest r v
            ∙ read_header-frame e.max_net_msg_byte m rest v.sendable)
        ∙ sym (length-frame m)

    want_some : message_len (at_pbuf r) ≢ 0
    want_some h = omega (arith, h, want_message, length-frame m)

    -- There is room for the message behind `pBuf`.
    want_fits : message_len (at_pbuf r) ≤ r.buf_size
    want_fits = omega (
      arith,
      want_message,
      message_read e.max_net_msg_byte m rest r v,
      v.in_bounds.room,
      v.in_bounds.bounded,
    )

    valid : is_valid_net_msg_header e.max_net_msg_byte (read_header (at_pbuf r)) ≡ true
    valid =
        ap (is_valid_net_msg_header e.max_net_msg_byte)
          (message_header e.max_net_msg_byte m rest r v)
        ∙ is_valid-frame e.max_net_msg_byte m rest v.sendable

    accepted : resync e (accept_header e r) ≡ note_header r
    unfolding resync accept_header note_header
    accepted = rw valid (rw (ne→== (message_len (at_pbuf r)) 0 want_some) refl)

    fitted : fit_buffer e (note_header r) ≡ noted
    unfolding fit_buffer note_header noted
    fitted =
        rw
          (
            ne→== (message_len (at_pbuf r)) 0 want_some,
            le→leb (message_len (at_pbuf r)) r.rcv_buf_size
                (omega (arith, want_fits, v.in_bounds.room)),
          )
          refl

    judged : judge_header e r ≡ noted
    unfolding judge_header
    judged =
        rw
          (
            eq→== r.want_read_len 0 v.idle,
            le→leb net_msg_header_len r.read_len
                (omega (arith, message_read e.max_net_msg_byte m rest r v, length-frame m)),
          )
          (ap (fit_buffer e) accepted ∙ fitted)

    unmoved : move_forward noted ≡ noted
    unfolding move_forward noted note_header note_length
    unmoved =
        rw
          (
            ne→== (message_len (at_pbuf r)) 0 want_some,
            not_lt→ltb r.buf_size (message_len (at_pbuf r)) (omega (arith, want_fits)),
          )
          refl

    at_once : take_message e noted ≡ (leb net_msg_header_len (taken r).read_len, taken r)
    unfolding take_message noted taken note_header note_length
    at_once =
        rw
          (
            ne→== (message_len (at_pbuf r)) 0 want_some,
            le→leb (message_len (at_pbuf r)) r.read_len
                (omega (arith, want_message, message_read e.max_net_msg_byte m rest r v)),
          )
          refl

    find_header_once_whole :
        find_header_once e r ≡ (leb net_msg_header_len (taken r).read_len, taken r)
    unfolding find_header_once
    find_header_once_whole =
        ap (λ s. take_message e (move_forward s)) judged ∙ ap (take_message e) unmoved ∙ at_once

    -- Where the message was, the next one begins.
    taken_lem :
        InBounds (taken r)
        × ((taken r).want_read_len ≡ 0)
        × (window (taken r) ≡ rest)
        × ((taken r).rcv_start_pos ≡ r.rcv_start_pos + length (frame m))
        × ((taken r).rcv_buf_size ≡ r.rcv_buf_size)
    unfolding taken noted note_header note_length consume
    taken_lem =
        let bounds =
          (note_length-Moved (note_header r) (note_header-InBounds r v.in_bounds)).in_bounds in
        let whole : message_len (at_pbuf r) ≤ r.read_len =
          omega (arith, want_message, message_read e.max_net_msg_byte m rest r v) in
        let same = deliver-SameBuffer e noted in
        (
          consumed-InBounds e noted bounds whole,
          refl,
          consumed-window e noted bounds whole
              ∙ ap (drop (message_len (at_pbuf r))) v.front
              ∙ drop-append (message_len (at_pbuf r)) (frame m) rest want_message,
          rw (same.conn_eq) (omega (arith, want_message)),
          rw (same.conn_eq) refl,
        )

  -- The messages are taken one after the other, and the buffer is used up behind them.
  pub record Advanced (n : ℕ) (r r' : Receiver) : Type 0 where
    pub in_bounds : InBounds r'
    pub start_pos : r'.rcv_start_pos ≡ r.rcv_start_pos + n
    pub same_size : r'.rcv_buf_size ≡ r.rcv_buf_size

  find_header-Advanced :
      (fuel : ℕ) (m : Msg) (ms : List Msg) (r : Receiver)
      → InBounds r
      → r.want_read_len ≡ 0
      → window r ≡ frames (m ∷ ms)
      → AllSendable e.max_net_msg_byte (m ∷ ms)
      → length ms ≤ fuel
      → Advanced (length (frames (m ∷ ms))) r (find_header e (suc fuel) r)
  unfolding find_header frames
  find_header-Advanced fuel m [] r v idle front sendable enough =
      let at : AtMessage e.max_net_msg_byte m [] r = record {
        in_bounds = v;
        idle = idle;
        front = front;
        sendable = sendable.0;
      } in
      let (bounds, awaited, left, start, size) = taken_lem m [] r at in
      let none_left =
        not_le→leb net_msg_header_len (taken r).read_len
          (omega (arith, length-window (taken r) bounds, ap length left)) in
      rw (find_header_once_whole m [] r at, none_left)
        record {
          in_bounds = bounds;
          start_pos = start ∙ ap (λ b. r.rcv_start_pos + length b) (sym (append-nil (frame m)));
          same_size = size;
        }
  find_header-Advanced zero m (m' ∷ ms) r v idle front sendable enough = absurd (omega arith)
  find_header-Advanced (suc fuel) m (m' ∷ ms) r v idle front sendable enough =
      let at : AtMessage e.max_net_msg_byte m (frames (m' ∷ ms)) r = record {
        in_bounds = v;
        idle = idle;
        front = front;
        sendable = sendable.0;
      } in
      let (bounds, awaited, left, start, size) = taken_lem m (frames (m' ∷ ms)) r at in
      let later =
        find_header-Advanced fuel m' ms (taken r) bounds awaited left sendable.1 (omega arith) in
      let more : net_msg_header_len ≤ (taken r).read_len =
        omega (arith, length-window (taken r) bounds, ap length left, length-frames (m' ∷ ms)) in
      rw
        (
          find_header_once_whole m (frames (m' ∷ ms)) r at,
          le→leb net_msg_header_len (taken r).read_len more,
        )
        record {
          in_bounds = later.in_bounds;
          start_pos =
              omega (arith, later.start_pos, start, length-append (frame m) (frames (m' ∷ ms)));
          same_size = later.same_size ∙ size;
        }

  pub receive-Advanced :
      (r : Receiver) (m : Msg) (ms : List Msg)
      → InBounds r
      → r.read_len ≡ 0
      → r.want_read_len ≡ 0
      → AllSendable e.max_net_msg_byte (m ∷ ms)
      → length (frames (m ∷ ms)) ≤ r.buf_size
      → Advanced (length (frames (m ∷ ms))) r (receive e (frames (m ∷ ms)) r)
  unfolding receive store_received
  receive-Advanced r m ms v empty idle sendable fits =
      let bs = frames (m ∷ ms) in
      let (bounds, front) = store_received-InBounds bs r v empty fits in
      let a =
        find_header-Advanced (r.read_len + length bs) m ms (store_received bs r) bounds idle front
          sendable (omega (arith, length-frames (m ∷ ms))) in
      record { in_bounds = a.in_bounds; start_pos = a.start_pos; same_size = a.same_size }
