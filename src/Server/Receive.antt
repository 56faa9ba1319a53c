-- ===== src/Server/Receive.antt =====
-- AudioServer::readFunc of audioserver/AudioServer.cpp, the handler of a readable socket.
--
-- The locals `pBuf` and `iBufSize` are fields of `Receiver` beside the connection. `pNetMsgHeader`
-- is a reference to `m_pNetMsgHeader` and moves with `pBuf`, so `pbuf` stands for both; it is
-- written back on return. Pointers are offsets. `iBufSize` is a natural number: it would be negative
-- only with `rcv_start_pos` past the block, after an access outside the block, where C++ gives the
-- program no meaning. A memcpy between overlapping regions is taken to move the bytes.
pub mod Loop
pub mod Rounds
pub mod Queues
pub mod Header
pub mod Window
pub mod Delivery
pub mod Stream
pub mod Whole
pub mod Stall
pub mod Origin
use epoll_based_fault_diagno.Base.{
  ℕ, zero, suc, ◌+◌, ◌-◌, ◌*◌, ◌/◌, ◌%◌, Bool, true, false, not, ◌&&◌, List, [], ◌∷◌, ◌++◌, Bytes,
  ℤ, is_pos, add64, length, take, drop, splice, leb, ltb, ◌==◌, if◌then◌else◌,
}
use epoll_based_fault_diagno.Wire.{read_header, is_valid_net_msg_header, net_msg_header_len, dt_wav}
use epoll_based_fault_diagno.Server.Conn.{Conn, malloc_rcv_buf}

-- ServerMsgHeader; `data_pos` is the offset that `m_pData` points at.
pub record ServerMsgHeader : Type 0 where
  pub msg_type : ℕ
  pub msg_len : ℕ
  pub fd : ℤ
  pub ip : ℕ
  pub data_pos : ℕ

-- One call of EnDataQueue: the index of the queue in `g_pRcvDataQueue`, and its two blocks.
pub record EnqueueCall : Type 0 where
  pub queue_idx : ℕ
  pub info : ServerMsgHeader
  pub block : Bytes

-- Counters of AudioServer and the globals beside it, `uint64_t` but for `g_iRcvBufMB`.
pub record Stats : Type 0 where
  pub header_err_cnt : ℕ
  pub header_err_bytes : ℕ
  pub head_err : Bool
  pub rcv_pcm_block_cnt : ℕ
  pub mov_buf_cnt : ℕ
  pub discard_cnt : ℕ
  pub discard_bytes : ℕ
  pub total_rcv_bytes : ℕ
  pub max_byte_per_read : ℕ
  pub max_msg_byte : ℕ
  pub rcv_buf_mb : ℕ

pub record Receiver : Type 0 where
  pub conn : Conn
  pub open conn use *
  pub pbuf : ℕ
  pub buf_size : ℕ
  pub stats : Stats
  pub calls : List EnqueueCall

-- Settings, `new`, and EnDataQueue of libmmdecoder.so: its return value after the calls before.
pub record Env : Type 0 where
  pub max_net_msg_byte : ℕ
  pub process_thread_cnt : ℕ
  pub mem : ℕ → Bytes
  pub enqueue : List EnqueueCall → EnqueueCall → ℤ

-- The memory from `pBuf` on, and the part of it that counts as received.
abbrev pub at_pbuf : Receiver → Bytes
at_pbuf r = drop r.pbuf r.rcv_buf

abbrev pub window : Receiver → Bytes
window r = take r.read_len (at_pbuf r)

abbrev pub max_ℕ : ℕ → ℕ → ℕ
max_ℕ a b = if ltb b a then a else b

-- `for (i = 1; i < iReadLen - sizeof(NetMsgHeader); ++i)`, with the rounds left and `i`; the flag is
-- whether it broke off at a header.
unfoldable pub search_header : ℕ → Bytes → ℕ → ℕ → ℕ × Bool
search_header max p zero i = (i, false)
search_header max p (suc rounds) i =
    let rest = search_header max p rounds (i + 1) in
    if is_valid_net_msg_header max (read_header (drop i p)) then (i, true) else rest

abbrev pub message_len : Bytes → ℕ
message_len p = (read_header p).msg_len + net_msg_header_len

unfoldable pub note_header : Receiver → Receiver
note_header r = record r {
  conn = record (r.conn) { want_read_len = message_len (at_pbuf r) };
  stats = record (r.stats) { head_err = false };
}

-- Skip the `i` bytes before the header that the search found, or before its end.
unfoldable pub skip_bytes : ℕ → Bool → Receiver → Receiver
skip_bytes i found r = record r {
  conn = record (r.conn) {
    want_read_len = if found then message_len (drop i (at_pbuf r)) else 0;
    read_len = r.read_len - i;
    rcv_start_pos = r.rcv_start_pos + i;
  };
  pbuf = r.pbuf + i;
  buf_size = r.rcv_buf_size - (r.rcv_start_pos + i);
  stats = record (r.stats) {
    header_err_cnt =
        if r.stats.head_err then r.stats.header_err_cnt else add64 r.stats.header_err_cnt 1;
    head_err = not found;
    header_err_bytes = add64 r.stats.header_err_bytes i;
  };
}

-- `g_iMaxMsgByte`, the longest message seen.
unfoldable pub note_length : Receiver → Receiver
note_length r = record r {
  stats = record (r.stats) { max_msg_byte = max_ℕ r.want_read_len r.stats.max_msg_byte };
}

-- A message longer than 512 MB: forget what was received. `pBuf` and `iBufSize` keep their values.
unfoldable pub drop_too_large : Receiver → Receiver
drop_too_large r = record r {
  conn = record (r.conn) { read_len = 0; want_read_len = 0; rcv_start_pos = 0 };
  stats = record (r.stats) { header_err_bytes = add64 r.stats.header_err_bytes r.read_len };
}

abbrev pub grown_size : ℕ → ℕ
grown_size need = (need / 1048576 + 1) * 1048576

unfoldable pub to_front : Receiver → Receiver
to_front r = record r {
  conn = record (r.conn) {
    rcv_buf = splice 0 (take r.read_len (drop r.rcv_start_pos r.rcv_buf)) r.rcv_buf;
    rcv_start_pos = 0;
  };
  pbuf = 0;
  buf_size = r.rcv_buf_size;
  stats = record (r.stats) {
    mov_buf_cnt = if r.want_read_len == 0 then r.stats.mov_buf_cnt else add64 r.stats.mov_buf_cnt 1;
  };
}

-- Move the received bytes to the front where the rest of the buffer is short.
unfoldable pub move_forward : Receiver → Receiver
move_forward r =
    if ltb r.buf_size (if r.want_read_len == 0 then r.rcv_buf_size / 2 else r.want_read_len)
    then to_front r
    else r

unfoldable pub consume : Receiver → Receiver
consume r = record r {
  conn = record (r.conn) {
    rcv_start_pos = r.rcv_start_pos + r.want_read_len;
    read_len = r.read_len - r.want_read_len;
    want_read_len = 0;
  };
  pbuf = r.rcv_start_pos + r.want_read_len;
  buf_size = r.rcv_buf_size - (r.rcv_start_pos + r.want_read_len);
}

module _ (e : Env) where
  -- The right header stands at `pBuf`.
  unfoldable pub accept_header : Receiver → Receiver
  accept_header r =
      if is_valid_net_msg_header e.max_net_msg_byte (read_header (at_pbuf r))
      then note_header r
      else r

  unfoldable pub resync : Receiver → Receiver
  resync r =
      if r.want_read_len == 0
      then (let (i, found) =
            search_header e.max_net_msg_byte (at_pbuf r) (r.read_len - net_msg_header_len - 1) 1 in
          skip_bytes i found r)
      else r

  -- A buffer of whole megabytes above `need`, with the received bytes at its front.
  unfoldable pub grow_to : ℕ → Receiver → Receiver
  unfolding malloc_rcv_buf
  grow_to size r =
      let c = malloc_rcv_buf e.mem size r.conn in
      record r {
        conn = record c { rcv_buf = splice 0 (take r.read_len (at_pbuf r)) c.rcv_buf };
        pbuf = 0;
        buf_size = size;
        stats = record (r.stats) { rcv_buf_mb = max_ℕ (size / 1048576) r.stats.rcv_buf_mb };
      }

  unfoldable pub fit_buffer : Receiver → Receiver
  fit_buffer r =
      if r.want_read_len == 0
      then r
      else if leb (message_len (at_pbuf r)) r.rcv_buf_size
      then note_length r
      else if ltb (512 * 1024 * 1024) (message_len (at_pbuf r))
      then drop_too_large (note_length r)
      else grow_to (grown_size (message_len (at_pbuf r))) (note_length r)

  -- The block under FindHeader.
  unfoldable pub judge_header : Receiver → Receiver
  judge_header r =
      if r.want_read_len == 0 && leb net_msg_header_len r.read_len
      then fit_buffer (resync (accept_header r))
      else r

  -- `idx` is set to 0 before each message, so the queue is that of index 1 % g_iProcessThreadCnt.
  unfoldable pub call_of : Receiver → EnqueueCall
  call_of r = record {
    queue_idx = (0 + 1) % e.process_thread_cnt;
    info = record {
      msg_type = (read_header (at_pbuf r)).msg_type;
      msg_len = (read_header (at_pbuf r)).msg_len;
      fd = r.conn.fd;
      ip = r.conn.ip;
      data_pos = r.pbuf + net_msg_header_len;
    };
    block = take r.want_read_len (at_pbuf r);
  }

  -- EnDataQueue; a return value of 0 or below counts the message as discarded.
  unfoldable pub enqueue_block : Receiver → Receiver
  enqueue_block r = record r {
    calls = r.calls ++ (call_of r ∷ []);
    stats =
        (let s = record (r.stats) { rcv_pcm_block_cnt = add64 r.stats.rcv_pcm_block_cnt 1 } in
          if is_pos (e.enqueue r.calls (call_of r)) then s else record s {
            discard_bytes = add64 s.discard_bytes r.want_read_len;
            discard_cnt = add64 s.discard_cnt 1;
          });
  }

  -- The switch over the type of the message.
  unfoldable pub deliver : Receiver → Receiver
  deliver r = if (read_header (at_pbuf r)).msg_type == dt_wav then enqueue_block r else r

  -- Judge the message body; the flag is `goto FindHeader`. `m_iReadLen < 0` cannot be: the message
  -- is no longer than what was read.
  unfoldable pub take_message : Receiver → Bool × Receiver
  take_message r =
      if not (r.want_read_len == 0) && leb r.want_read_len r.read_len
      then (leb net_msg_header_len (consume (deliver r)).read_len, consume (deliver r))
      else (false, r)

  unfoldable pub find_header_once : Receiver → Bool × Receiver
  find_header_once r = take_message (move_forward (judge_header r))
