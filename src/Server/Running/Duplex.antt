-- ===== src/Server/Running/Duplex.antt =====
-- One connection on which reads and writes alternate in any order: the events that EpollServer::epollRun
-- (audioserver/EpollServer.cpp) hands to readFunc and writeFunc (audioserver/AudioServer.cpp).
pub mod Halves
pub mod Both
use mathlib.Core.Option
use epoll_based_fault_diagno.Base.{List, [], ◌∷◌, ◌++◌, Bytes, Option, none, some, ℤ}
use epoll_based_fault_diagno.Socket.{Errno, Sent}
use epoll_based_fault_diagno.Server.Conn.{Conn}
use epoll_based_fault_diagno.Server.Receive.{EnqueueCall, Env, Stats}
use epoll_based_fault_diagno.Server.Receive.Loop.{Recv, read_func}
use epoll_based_fault_diagno.Server.Send.{SendStats, WriteOut, write_func}

-- An event with EPOLLIN or EPOLLOUT, with what recv brings in it, or errno and what send answers.
pub data Turn : Type 0 where
  reading : List Recv → Turn
  writing : Errno → List Sent → Turn

-- The connection with what the two handlers share beside it, and what has gone over the network.
pub record Session : Type 0 where
  pub conn : Conn
  pub stats : Stats
  pub calls : List EnqueueCall
  pub send_stats : SendStats
  pub results : List Bytes
  pub wire : Bytes

abbrev pub after_write : Session → WriteOut × List Bytes → Session
after_write x (o, results) = record x {
  conn = o.conn;
  send_stats = o.stats;
  results = results;
  wire = x.wire ++ o.wire;
}

module _ (e : Env) (dequeue : List Bytes → ℤ × List Bytes) where
  unfoldable pub take_turn : Turn → Session → Option Session
  take_turn (reading rs) x =
      let (code, c, r) = read_func e rs x.conn x.stats x.calls in
      some (record x { conn = c; stats = r.stats; calls = r.calls })
  take_turn (writing errno rs) x =
      Option.map (after_write x) (write_func dequeue x.results rs errno x.conn x.send_stats)

  -- `none` where a call of send has no answer.
  unfoldable pub take_turns : List Turn → Session → Option Session
  unfolding take_turn
  take_turns [] x = some x
  take_turns (t ∷ more) x = elim (take_turn t x) as (λ _. Option Session) [
    | none ↦ none
    | some x' ↦ take_turns more x'
  ]
