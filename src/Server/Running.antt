-- ===== src/Server/Running.antt =====
-- The event loop of EpollServer (audioserver/EpollServer.cpp) with the callbacks that
-- AudioServer::requestListenFunc gives it (audioserver/AudioServer.cpp): read_call_back_func and
-- write_call_back_func, which call readFunc and writeFunc for the connection of the event.
pub mod Sockets
pub mod Sound
pub mod Routed
pub mod Idle
pub mod Duplex
use epoll_based_fault_diagno.Base.{
  ℕ, ◌≡◌, Bool, true, false, List, [], ◌∷◌, Bytes, Option, none, some, ℤ, pos, ◌==◌, if◌then◌else◌,
}
use epoll_based_fault_diagno.Socket.{Errno, eintr, Sent}
use epoll_based_fault_diagno.Server.Conn.{Conn}
use epoll_based_fault_diagno.Server.Receive.{EnqueueCall, Env, Stats}
use epoll_based_fault_diagno.Server.Receive.Loop.{Recv, read_func}
use epoll_based_fault_diagno.Server.Send.{SendStats, write_func}
use epoll_based_fault_diagno.Server.Epoll.{Callback, Event, Server, epoll_run}

-- What the callbacks share beside the connections: the counters of AudioServer, the messages that
-- went to the queues of the workers, the queues of results, and what the sockets bring in the calls
-- to come. For readFunc that is what recv brings, for writeFunc what send answers, with errno before.
pub record World : Type 0 where
  pub stats : Stats
  pub calls : List EnqueueCall
  pub send_stats : SendStats
  pub results : ℕ → List Bytes
  pub reads : List (List Recv)
  pub writes : List (List Sent × Errno)
  -- A call of send has had no answer: TcpSendData waits for one, and the loop with it, so that what
  -- the model does from there on is not part of the program.
  pub waits : Bool

-- The answers for one call of readFunc, and those for the calls after it. With no answers left,
-- readFunc sees `g_isExit`.
unfoldable pub next_reads : List (List Recv) → List Recv × List (List Recv)
next_reads [] = ([], [])
next_reads (rs ∷ more) = (rs, more)

-- With no answers left there are none; what errno is then does not matter.
unfoldable pub next_writes :
    List (List Sent × Errno) → (List Sent × Errno) × List (List Sent × Errno)
next_writes [] = (([], eintr), [])
next_writes (answers ∷ more) = (answers, more)

-- A null pointer for a queue is an empty one.
abbrev pub queue_of : Option ℕ → World → List Bytes
queue_of none w = []
queue_of (some q) w = w.results q

abbrev pub put_queue : Option ℕ → List Bytes → World → World
put_queue none blocks w = w
put_queue (some q) blocks w = record w { results = λ k. if k == q then blocks else w.results k }

module _ (e : Env) where
  unfoldable pub read_call_back_func : Callback World
  unfolding next_reads
  read_call_back_func c w =
      let (rs, more) = next_reads w.reads in
      let (code, c', r) = read_func e rs c w.stats w.calls in
      ((code, c'), record w { stats = r.stats; calls = r.calls; reads = more })

-- `dequeue` is DeDataQueue, as for `write_func`.
module _ (dequeue : List Bytes → ℤ × List Bytes) where
  unfoldable pub write_answered :
      List Sent → Errno → List (List Sent × Errno) → Conn → World → (ℤ × Conn) × World
  write_answered rs errno more c w =
      elim (write_func dequeue (queue_of c.rs_que_wait4send w) rs errno c w.send_stats)
        as (λ _. (ℤ × Conn) × World) [
          | none ↦ ((pos 0, c), record w { writes = more; waits = true })
          | some (o, blocks) ↦ (
            (o.code, o.conn),
            put_queue c.rs_que_wait4send blocks (record w { send_stats = o.stats; writes = more }),
          )
        ]

  unfoldable pub write_call_back_func : Callback World
  unfolding next_writes write_answered
  write_call_back_func c w =
      let ((rs, errno), more) = next_writes w.writes in write_answered rs errno more c w

module _ (e : Env) (dequeue : List Bytes → ℤ × List Bytes) (raw : Conn) where
  -- m_EpollServer.epollRun(read_call_back_func, write_call_back_func)
  unfoldable pub listen_run : List (List (Option ℕ × Event)) → World × Server → World × Server
  unfolding read_call_back_func write_call_back_func
  listen_run rounds t =
      epoll_run e.mem raw (read_call_back_func e) (write_call_back_func dequeue) rounds t
