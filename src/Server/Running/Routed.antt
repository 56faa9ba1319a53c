-- ===== src/Server/Running/Routed.antt =====
-- What the event loop makes of messages that come in on several connections, event by event
-- (audioserver/EpollServer.cpp, audioserver/AudioServer.cpp).
use epoll_based_fault_diagno.Base.{
  ℕ, ◌+◌, ◌*◌, ◌≤◌, ◌≡◌, true, false, List, [], ◌∷◌, ◌++◌, map, Bytes, Option, some, ℤ, pos,
  get_elem?, drop,
}
use epoll_based_fault_diagno.Socket.{Errno, would_block}
use epoll_based_fault_diagno.Wire.{net_msg_header_len, Msg, frame}
use epoll_based_fault_diagno.Server.Conn.{Conn, IsAllocator}
use epoll_based_fault_diagno.Server.Receive.{Env, Receiver}
use epoll_based_fault_diagno.Server.Receive.Loop.{Recv, failed, read_func, enter_read}
use epoll_based_fault_diagno.Server.Receive.Delivery.{only_wav}
use epoll_based_fault_diagno.Server.Receive.Stream.{rounds_of, concat, AllSendables, Fits}
use epoll_based_fault_diagno.Server.Receive.Origin.{Tagged, tag}
use epoll_based_fault_diagno.Server.Running.Idle.{AllIdle}
use epoll_based_fault_diagno.Server.Epoll.{Event, Server, ready, run_round}
use epoll_based_fault_diagno.Server.Running.{World, read_call_back_func, write_call_back_func}

-- An event on connection `mate`, which has the socket `fd` and the address `ip`: the rounds of
-- messages that recv brings, and the errno of the call that ends them.
pub record Arrival : Type 0 where
  pub mate : ℕ
  pub fd : ℤ
  pub ip : ℕ
  pub rounds : List (List Msg)
  pub errno : Errno

abbrev pub batch_of : Arrival → List (Option ℕ × Event)
batch_of a = (some a.mate, ready true false false) ∷ []

abbrev pub reads_of : Arrival → List Recv
reads_of a = rounds_of a.rounds (failed a.errno ∷ [])

-- What the workers are to get.
unfoldable pub routed : List Arrival → List Tagged
routed [] = []
routed (a ∷ more) = map (λ m. (a.fd, a.ip, frame m)) (only_wav (concat a.rounds)) ++ routed more

module _ (e : Env) (dequeue : List Bytes → ℤ × List Bytes) (raw : Conn) where
  abbrev pub step : Arrival → World × Server → World × Server
  step a t =
      run_round e.mem raw (read_call_back_func e) (write_call_back_func dequeue) (batch_of a) t

  -- In each event the connection is the one that the arrival names, what recv brings fits the room
  -- that is there then and holds whole messages, and the last recv would block.
  unfoldable pub Arrives : List Arrival → World × Server → Type 0
  Arrives [] t = Unit {0}
  Arrives (a ∷ more) t =
      ((c : Conn) × (get_elem? t.1.mates a.mate ≡ some c)
        × (c.fd ≡ a.fd)
        × (c.ip ≡ a.ip)
        × Fits e a.rounds (enter_read c t.0.stats t.0.calls))
      × AllSendables e.max_net_msg_byte a.rounds
      × (would_block a.errno ≡ true)
      × Arrives more (step a t)

  -- One event, by what readFunc returns for it.
  module _ (a : Arrival) (w : World) (s : Server) (c c' : Conn) (r : Receiver)
      (later : List (List Recv)) (at : get_elem? s.mates a.mate ≡ some c)
      (reads : w.reads ≡ reads_of a ∷ later)
      (result : read_func e (reads_of a) c w.stats w.calls ≡ (pos 0, c', r)) where
    after_read : World
    after_read = record w { stats = r.stats; calls = r.calls; reads = later }

    reported : Server
    reported = record s { slots = some a.mate ∷ drop 1 s.slots }

module _ (e : Env) (ok_mem : IsAllocator e.mem)
    (limited : e.max_net_msg_byte + net_msg_header_len ≤ 512 * 1024 * 1024)
    (dequeue : List Bytes → ℤ × List Bytes) (raw : Conn) where
  -- What one event does to an idle server.
  record Served (a : Arrival) (later : List (List Recv)) (t t' : World × Server) : Type 0 where
    all_idle : AllIdle t'.1.mates
    tagged :
        map tag t'.0.calls
        ≡ map tag t.0.calls ++ map (λ m. (a.fd, a.ip, frame m)) (only_wav (concat a.rounds))
    reads_left : t'.0.reads ≡ later
