-- ===== src/Transfer/Clients.antt =====
-- Several clients (audioclient/ClientManage.cpp) and one event loop (audioserver/EpollServer.cpp) with
-- its handlers (audioserver/AudioServer.cpp).
use epoll_based_fault_diagno.Base.{ℕ, List, [], ◌∷◌, ◌++◌, Bytes, ◌==◌, if◌then◌else◌}
use epoll_based_fault_diagno.Wire.{Msg}
use epoll_based_fault_diagno.Client.Outgoing.{Outgoing}
use epoll_based_fault_diagno.Server.Conn.{Conn}
use epoll_based_fault_diagno.Server.Receive.Origin.{Tagged}
use epoll_based_fault_diagno.Server.Epoll.{Server}
use epoll_based_fault_diagno.Server.Running.Routed.{Arrival}

-- The blocks of the messages that carry an address.
unfoldable pub from_ip : ℕ → List Tagged → List Bytes
from_ip ip [] = []
from_ip ip ((fd, k, b) ∷ more) = let rest = from_ip ip more in if k == ip then b ∷ rest else rest

-- What the events of the connections with an address bring, in their order.
unfoldable pub rounds_from : ℕ → List Arrival → List (List Msg)
rounds_from ip [] = []
rounds_from ip (a ∷ more) =
    let rest = rounds_from ip more in if a.ip == ip then a.rounds ++ rest else rest
