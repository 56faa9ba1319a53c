-- ===== src/Server/Running/Duplex/Both.antt =====
-- What both directions of a connection carry, whatever the order of the events
-- (audioserver/AudioServer.cpp, audioserver/EpollServer.cpp).
use epoll_based_fault_diagno.Base.{◌+◌, ◌*◌, ◌≤◌, ◌≡◌, List, ◌++◌, map, Bytes, some, ℤ}
use epoll_based_fault_diagno.Wire.{net_msg_header_len, frame}
use epoll_based_fault_diagno.Server.Conn.{IsAllocator}
use epoll_based_fault_diagno.Server.Receive.{Env}
use epoll_based_fault_diagno.Server.Receive.Window.Refine.{blocks}
use epoll_based_fault_diagno.Server.Receive.Delivery.{only_wav}
use epoll_based_fault_diagno.Server.Running.Idle.{IdleConn}
use epoll_based_fault_diagno.Server.Running.Duplex.Halves.{Input, turn_of, arrived, SendsOn}
use epoll_based_fault_diagno.Server.Running.Duplex.{Session, take_turn}

-- What holds between the events, for the message in sending and the blocks enqueued before.
record Both (msg : Bytes) (before : List Bytes) (x : Session) : Type 0 where
  sends_on : SendsOn msg x
  enqueued : blocks x.calls ≡ before
  idle : IdleConn (x.conn)

module _ (e : Env) (ok_mem : IsAllocator e.mem)
    (limited : e.max_net_msg_byte + net_msg_header_len ≤ 512 * 1024 * 1024)
    (dequeue : List Bytes → ℤ × List Bytes) where
  After : Input → Bytes → List Bytes → Session → Type 0
  After ev msg before x =
      (x' : Session) × (take_turn e dequeue (turn_of ev) x ≡ some x')
      × Both msg (before ++ map frame (only_wav (arrived ev))) x'
