-- ===== src/Server/Send.antt =====
-- Sending: TcpSendData and AudioServer::writeFunc of audioserver/AudioServer.cpp.
--
-- The calls of send are a list of results, used up in order; `none` is a call that still waits for
-- one. The bytes that go over the network are returned beside the result.
pub mod Prefix
pub mod Write
use epoll_based_fault_diagno.Base.{
  ℕ, ◌+◌, ◌-◌, Bool, true, false, not, ◌&&◌, List, [], ◌∷◌, ◌++◌, Bytes, Option, none, some, ℤ, pos,
  negsuc, is_pos, add64, length, take, drop, leb, ◌==◌, if◌then◌else◌,
}
use mathlib.Core.Option
use epoll_based_fault_diagno.Socket.{Errno, eintr, eagain, other, would_block, Sent, sent, refused}
use epoll_based_fault_diagno.Server.Conn.{Conn}

-- What TcpSendData returns, errno as it leaves it, what went over the network, and the results left.
pub record SendOut : Type 0 where
  pub ret : ℤ
  pub errno : Errno
  pub wire : Bytes
  pub unused : List Sent

-- The loop, with `iBytes2Send`, the bytes from `p` on, and what has gone out so far. EAGAIN ends it
-- with the count so far, any other error with -1.
unfoldable pub send_loop : List Sent → ℕ → ℕ → Bytes → Bytes → Errno → Option SendOut
send_loop [] length bytes2send p wire errno =
    if bytes2send == 0
    then some (record { ret = pos (length - bytes2send); errno = errno; wire = wire; unused = [] })
    else none
send_loop (sent k ∷ rs) length bytes2send p wire errno =
    let rest = send_loop rs length (bytes2send - k) (drop k p) (wire ++ take k p) errno in
    if bytes2send == 0
    then some (record {
      ret = pos (length - bytes2send);
      errno = errno;
      wire = wire;
      unused = sent k ∷ rs;
    })
    else rest
send_loop (refused err ∷ rs) length bytes2send p wire errno =
    if bytes2send == 0
    then some (record {
      ret = pos (length - bytes2send);
      errno = errno;
      wire = wire;
      unused = refused err ∷ rs;
    })
    else some (record {
      ret = elim err [ eagain ↦ pos (length - bytes2send) | _ ↦ negsuc 0 ];
      errno = err;
      wire = wire;
      unused = rs;
    })

-- `errno` is its value before the call.
unfoldable pub tcp_send_data : List Sent → Bytes → ℕ → Errno → Option SendOut
tcp_send_data rs data0 length errno = send_loop rs length length data0 [] errno

-- The counters that writeFunc keeps.
pub record SendStats : Type 0 where
  pub sent_cnt : ℕ
  pub send_fail_cnt : ℕ
  pub re_send_cnt0 : ℕ
  pub re_send_cnt1 : ℕ

pub record WriteOut : Type 0 where
  pub code : ℤ
  pub conn : Conn
  pub stats : SendStats
  pub wire : Bytes
  pub unused : List Sent

-- Behind a send of `n > 0` bytes.
unfoldable pub note_sent : ℕ → Conn → SendStats → ℤ × Conn × SendStats
note_sent n c s =
    if c.want_snd_len - n == 0
    then (
      pos 1,
      record c { want_snd_len = c.want_snd_len - n; net_msg_header = none; sent_len = 0 },
      record s { sent_cnt = add64 s.sent_cnt 1 },
    )
    else (pos 0, record c { want_snd_len = c.want_snd_len - n; sent_len = c.sent_len + n }, s)

-- Behind a send that returned 0 or less.
unfoldable pub note_unsent : Bool → Errno → Conn → SendStats → SendStats
note_unsent zero_ret errno c s =
    if not zero_ret && would_block errno
    then (if c.want_snd_len == c.original_len
        then record s { re_send_cnt0 = add64 s.re_send_cnt0 1 }
        else record s { re_send_cnt1 = add64 s.re_send_cnt1 1 })
    else record s { send_fail_cnt = add64 s.send_fail_cnt 1 }

abbrev pub is_zero : ℤ → Bool
is_zero (pos n) = n == 0
is_zero (negsuc n) = false

abbrev pub magnitude : ℤ → ℕ
magnitude (pos n) = n
magnitude (negsuc n) = 0

unfoldable pub note_result : SendOut → Conn → SendStats → WriteOut
unfolding note_sent note_unsent
note_result o c s =
    if is_pos o.ret
    then (let (code, c', s') = note_sent (magnitude o.ret) c s in
        record { code = code; conn = c'; stats = s'; wire = o.wire; unused = o.unused })
    else record {
      code = pos 0;
      conn = c;
      stats = note_unsent (is_zero o.ret) o.errno c s;
      wire = o.wire;
      unused = o.unused;
    }

-- The message in sending goes on.
unfoldable pub send_message : List Sent → Errno → Conn → SendStats → Option WriteOut
send_message rs errno c s =
    Option.map (λ o. note_result o c s)
      (tcp_send_data rs (drop c.sent_len c.snd_buf) c.want_snd_len errno)

-- `dequeue` is DeDataQueue on `m_pRSQueWait4Send`: its return value and the queue behind it, for the
-- queue before. The code that would make the block taken from there the message in sending is a
-- comment in the source.
unfoldable pub write_func :
    (List Bytes → ℤ × List Bytes)
    → List Bytes
    → List Sent
    → Errno
    → Conn
    → SendStats
    → Option (WriteOut × List Bytes)
write_func dequeue queue rs errno c s =
    if c.want_snd_len == 0
    then some
        (record { code = pos 0; conn = c; stats = s; wire = []; unused = rs }, (dequeue queue).1)
    else Option.map (λ o. (o, queue)) (send_message rs errno c s)
