-- ===== src/Server/Receive/Loop.antt =====
-- The loops of AudioServer::readFunc: `goto FindHeader`, and the reads of a non-blocking socket.
use epoll_based_fault_diagno.Base.{
  ℕ, zero, suc, ◌+◌, ◌-◌, List, [], ◌∷◌, Bytes, ℤ, pos, negsuc, some, add64, length, splice,
  if◌then◌else◌,
}
use epoll_based_fault_diagno.Server.Conn.{Conn}
use epoll_based_fault_diagno.Socket.{Errno, would_block}
use epoll_based_fault_diagno.Server.Receive.{
  EnqueueCall, Receiver, Stats, Env, max_ℕ, find_header_once,
}

-- What a call of recv brings: bytes; 0, with errno as an earlier call left it; or -1.
pub data Recv : Type 0 where
  received : Bytes → Recv
  closed failed : Errno → Recv

-- recv(md->m_iFd, pBuf, iBufSize, MSG_DONTWAIT) with its bytes, and the counters behind it.
unfoldable pub store_received : Bytes → Receiver → Receiver
store_received bs r = record r {
  conn = record (r.conn) {
    rcv_buf = splice r.pbuf bs r.rcv_buf;
    read_len = r.read_len + length bs;
  };
  stats = record (r.stats) {
    max_byte_per_read = max_ℕ (length bs) r.stats.max_byte_per_read;
    total_rcv_bytes = add64 r.stats.total_rcv_bytes (length bs);
  };
}

-- The locals at entry.
unfoldable pub enter_read : Conn → Stats → List EnqueueCall → Receiver
enter_read c s calls = record {
  conn = c;
  pbuf = c.rcv_start_pos;
  buf_size = c.rcv_buf_size - c.rcv_start_pos;
  stats = s;
  calls = calls;
}

-- `m_pNetMsgHeader` is left at `pBuf`.
unfoldable pub leave_read : Receiver → Conn
leave_read r = record (r.conn) { net_msg_header = some r.pbuf }

module _ (e : Env) where
  -- `goto FindHeader` is taken at most once for each message in the buffer: `fuel` bounds that.
  unfoldable pub find_header : ℕ → Receiver → Receiver
  find_header zero r = r
  find_header (suc fuel) r =
      let (again, r') = find_header_once e r in
      let rest = find_header fuel r' in if again then rest else r'

  -- One round of `while (!g_isExit)` that got bytes.
  unfoldable pub receive : Bytes → Receiver → Receiver
  unfolding store_received
  receive bs r = let r' = store_received bs r in find_header (suc r'.read_len) r'

  -- The list is what recv brings in the rounds until `g_isExit` is seen.
  unfoldable pub read_loop : List Recv → Receiver → ℤ × Receiver
  read_loop [] r = (pos 0, r)
  read_loop (received bs ∷ rs) r = read_loop rs (receive bs r)
  read_loop (closed err ∷ rs) r = (if would_block err then pos 0 else negsuc 0, r)
  read_loop (failed err ∷ rs) r = (if would_block err then pos 0 else negsuc 0, r)

  unfoldable pub read_func : List Recv → Conn → Stats → List EnqueueCall → ℤ × Conn × Receiver
  unfolding enter_read leave_read
  read_func rs c s calls =
      let (code, r) = read_loop rs (enter_read c s calls) in (code, leave_read r, r)
