-- ===== src/Tests/Turns.antt =====
-- A message that is in sending while another one arrives.
use mathlib.Core.Option
use epoll_based_fault_diagno.Base.{List, [], ◌∷◌, Bytes}
use epoll_based_fault_diagno.Socket.{eagain, sent, refused}
use epoll_based_fault_diagno.Server.Running.Duplex.{Session}
use epoll_based_fault_diagno.Server.Running.Duplex.Halves.{Input, messages, room}
use epoll_based_fault_diagno.Tests.Serving.{test_stats, test_conn, buf64, wav_msg}
use epoll_based_fault_diagno.Tests.Running.{no_sends}

abbrev reply : Bytes
reply = 7 ∷ 8 ∷ 9 ∷ []

abbrev replying : Session
replying = record {
  conn = record (test_conn 0 buf64) { snd_buf = reply; want_snd_len = 3; original_len = 3 };
  stats = test_stats;
  calls = [];
  send_stats = no_sends;
  results = [];
  wire = [];
}

abbrev events : List Input
events =
    messages ((wav_msg ∷ []) ∷ []) eagain
    ∷ room eagain (sent 2 ∷ refused eagain ∷ refused eagain ∷ [])
    ∷ []
