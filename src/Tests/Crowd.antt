-- ===== src/Tests/Crowd.antt =====
-- Two clients, one of which sends what it has in its queue.
use epoll_based_fault_diagno.Base.{List, [], ◌∷◌, map, pos}
use epoll_based_fault_diagno.Socket.{eagain}
use epoll_based_fault_diagno.Server.Running.{World}
use epoll_based_fault_diagno.Server.Running.Routed.{Arrival, reads_of}
use epoll_based_fault_diagno.Tests.Running.{test_world}
use epoll_based_fault_diagno.Tests.Stalling.{from_second}
use epoll_based_fault_diagno.Tests.Transfers.{one_msg}

abbrev from_sender : Arrival
from_sender = record { mate = 0; fd = pos 5; ip = 1; rounds = one_msg ∷ []; errno = eagain }

abbrev crowd : List Arrival
crowd = from_sender ∷ from_second ∷ []

abbrev crowded_world : World
crowded_world = record test_world { reads = map reads_of crowd }
