-- ===== src/Tests/Stalling.antt =====
-- Messages that end at the end of the buffer, and messages of two connections.
use epoll_based_fault_diagno.Base.{
  zero, suc, subst, ◌≡◌, refl, arith, List, [], ◌∷◌, map, pos, replicate,
}
use mathlib.Core.Option
use epoll_based_fault_diagno.Socket.{eagain}
use epoll_based_fault_diagno.Wire.{Msg, frame, frames, header_bytes}
use epoll_based_fault_diagno.Framing.Messages.{AllSendable}
use epoll_based_fault_diagno.Server.Conn.{Conn}
use epoll_based_fault_diagno.Server.Receive.Loop.{
  closed, receive, read_func, enter_read, leave_read,
}
use epoll_based_fault_diagno.Server.Receive.Stall.{read_func_stalls}
use epoll_based_fault_diagno.Server.Receive.Stream.{end_code}
use epoll_based_fault_diagno.Server.Epoll.{Server}
use epoll_based_fault_diagno.Server.Running.{World}
use epoll_based_fault_diagno.Server.Running.Idle.{IdleConn, AllIdle}
use epoll_based_fault_diagno.Server.Running.Routed.{Arrival, reads_of}
use epoll_based_fault_diagno.Tests.Serving.{
  test_env, test_stats, test_conn, buf64, idle, idle-InBounds, wav_msg, two_msgs-AllSendable,
}
use epoll_based_fault_diagno.Tests.Running.{test_world}

pub one_wav : AllSendable 100 (wav_msg ∷ [])
one_wav = (two_msgs-AllSendable.0, tt)

-- With its header, the message has 64 bytes, as many as the buffer.
abbrev full_msg : Msg
full_msg = record { type = 0; body = replicate 52 7 }

full_msg-AllSendable : AllSendable 100 (full_msg ∷ [])
full_msg-AllSendable =
    (record { type_byte = omega arith; len_word = omega arith; len_below = omega arith }, tt)

read_func_stalls_example :
    let c = leave_read (receive test_env (frames (full_msg ∷ [])) idle) in
    ((enter_read c test_stats []).buf_size ≡ 0)
    × (read_func test_env (closed eagain ∷ []) c test_stats []
        ≡ (end_code eagain, c, enter_read c test_stats []))
read_func_stalls_example =
    read_func_stalls test_env idle full_msg [] eagain [] test_stats [] idle-InBounds refl refl
      full_msg-AllSendable (unfold frames frame header_bytes in refl)

-- One message each on two connections.
abbrev from_first : Arrival
from_first = record { mate = 0; fd = pos 5; ip = 1; rounds = (wav_msg ∷ []) ∷ []; errno = eagain }

abbrev pub from_second : Arrival
from_second = record { mate = 1; fd = pos 6; ip = 2; rounds = (wav_msg ∷ []) ∷ []; errno = eagain }

abbrev pub first_conn : Conn
first_conn = test_conn 0 buf64

abbrev pub second_conn : Conn
second_conn = record first_conn { fd = pos 6; ip = 2 }

abbrev pub idle_server : Server
idle_server = record {
  mates = first_conn ∷ second_conn ∷ [];
  trans_map = record { nodes = (2, 1) ∷ (1, 0) ∷ [] };
  client_cnt = pos 2;
  slots = [];
  trace = [];
}

abbrev both : List Arrival
both = from_first ∷ from_second ∷ []

abbrev reading_world : World
reading_world = record test_world { reads = map reads_of both }

first_conn-IdleConn : IdleConn first_conn
first_conn-IdleConn = record {
  sized = refl;
  bounded = omega arith;
  nothing_read = refl;
  nothing_awaited = refl;
}

pub idle_server-AllIdle : AllIdle idle_server.mates
unfolding AllIdle
idle_server-AllIdle zero c at =
    subst IdleConn (Option.some-injective first_conn c at) first_conn-IdleConn
idle_server-AllIdle (suc zero) c at =
    subst IdleConn (Option.some-injective second_conn c at)
      record { sized = refl; bounded = omega arith; nothing_read = refl; nothing_awaited = refl }
idle_server-AllIdle (suc (suc p)) c at = absurd (Option.none-ne-some c at)
