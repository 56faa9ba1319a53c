-- ===== src/Server/Receive/Stall.antt =====
-- AudioServer::readFunc (audioserver/AudioServer.cpp) where messages end exactly at the end of the
-- buffer.
use epoll_based_fault_diagno.Base.{◌≡◌, ap, sym, List, ◌∷◌, arith, length, some}
use epoll_based_fault_diagno.Wire.{Msg, frames}
use epoll_based_fault_diagno.Framing.Messages.{AllSendable}
use epoll_based_fault_diagno.Server.Receive.{EnqueueCall, Stats, Receiver, Env}
use epoll_based_fault_diagno.Socket.{Errno}
use epoll_based_fault_diagno.Server.Receive.Stream.{end_code}
use epoll_based_fault_diagno.Server.Receive.Loop.{
  Recv, closed, receive, read_loop, read_func, enter_read, leave_read,
}
use epoll_based_fault_diagno.Server.Receive.Window.{InBounds}
use epoll_based_fault_diagno.Server.Receive.Whole.{Advanced, receive-Advanced}

module _ (e : Env) where
  -- A connection whose offsets are in its buffer and which has nothing left over gets, in one recv
  -- that fills the room behind `pBuf`, one or more whole messages below the limit. Then there is no
  -- room left. readFunc asks recv for 0 bytes, and when that returns 0, the connection, the counters
  -- and the messages enqueued stay as they are, with no room again for the next call; the code is 0
  -- where errno says from an earlier call that it would block or was interrupted, and -1 otherwise.
  pub read_func_stalls :
      (r : Receiver) (m : Msg) (ms : List Msg) (err : Errno) (more : List Recv) (s : Stats)
      (calls : List EnqueueCall)
      → InBounds r
      → r.read_len ≡ 0
      → r.want_read_len ≡ 0
      → AllSendable e.max_net_msg_byte (m ∷ ms)
      → length (frames (m ∷ ms)) ≡ r.buf_size
      → let c = leave_read (receive e (frames (m ∷ ms)) r) in
        ((enter_read c s calls).buf_size ≡ 0)
        × (read_func e (closed err ∷ more) c s calls ≡ (end_code err, c, enter_read c s calls))
  unfolding receive enter_read leave_read read_func read_loop
  read_func_stalls r m ms err more s calls v empty idle sendable fills = (
    omega (arith, a.start_pos, a.same_size, v.synced, v.room, fills),
    ap
        (λ p. (
          end_code err,
          record (r'.conn) { net_msg_header = some p },
          enter_read (leave_read r') s calls,
        ))
        (sym a.in_bounds.synced),
  )
    where
      r' : Receiver
      r' = receive e (frames (m ∷ ms)) r

      a : Advanced e (length (frames (m ∷ ms))) r r'
      a = receive-Advanced e r m ms v empty idle sendable (omega (arith, fills))
