-- ===== src/Tests/Running.antt =====
-- The whole event loop: a connection is open and gets two messages, and then fails.
use mathlib.Core.Option
use epoll_based_fault_diagno.Base.{
  ℕ, ◌≡◌, refl, sym, ap, is_neg, true, false, List, [], ◌∷◌, Bytes, Option, none, some, ℤ, pos,
  arith,
}
use epoll_based_fault_diagno.Socket.{other}
use epoll_based_fault_diagno.Server.Receive.{EnqueueCall}
use epoll_based_fault_diagno.Server.Receive.Loop.{Recv, received, failed}
use epoll_based_fault_diagno.Server.Send.{SendStats}
use epoll_based_fault_diagno.Server.Worker.{worker_at, worker_func}
use epoll_based_fault_diagno.Server.Epoll.{Event, ready}
use epoll_based_fault_diagno.Server.Epoll.Count.{Counted}
use epoll_based_fault_diagno.Server.Epoll.Reports.{LiveAt, Elsewhere, Reports}
use epoll_based_fault_diagno.Server.Epoll.Rounds.{Reported}
use epoll_based_fault_diagno.Server.Running.{
  World, read_call_back_func, write_call_back_func, listen_run,
}
use epoll_based_fault_diagno.Server.Running.Sound.{listen_run-Sound}
use epoll_based_fault_diagno.Tests.Connections.{raw_conn, open_conn, one_open, one_open-Counted}
use epoll_based_fault_diagno.Tests.Serving.{test_env, test_stats, stream}

abbrev pub no_sends : SendStats
no_sends = record { sent_cnt = 0; send_fail_cnt = 0; re_send_cnt0 = 0; re_send_cnt1 = 0 }

abbrev test_reads : List Recv
test_reads = received stream ∷ failed other ∷ []

abbrev pub test_world : World
test_world = record {
  stats = test_stats;
  calls = [];
  send_stats = no_sends;
  results = λ q. [];
  reads = test_reads ∷ [];
  writes = [];
  waits = false;
}

abbrev pub no_results : List Bytes → ℤ × List Bytes
no_results blocks = (pos 0, blocks)

abbrev first_block : List EnqueueCall → Option (EnqueueCall × List EnqueueCall)
first_block [] = none
first_block (c ∷ cs) = some (c, cs)

abbrev one_batch : List (List (Option ℕ × Event))
one_batch = ((some 0, ready true false false) ∷ []) ∷ []

one_batch-Reported :
    Reported test_env.mem raw_conn
      (read_call_back_func test_env)
      (write_call_back_func no_results)
      one_batch
      (test_world, one_open)
unfolding Reported Reports LiveAt Elsewhere
one_batch-Reported =
    ((λ c there. ap (λ x. is_neg x.fd) (sym (Option.some-injective open_conn c there)), tt, tt), tt)

listen_run-Sound_example :
    let (w, s) = listen_run test_env no_results raw_conn one_batch (test_world, one_open) in
    Counted s × ((worker_func first_block 9 (worker_at test_env 0 w.calls)).taken ≡ [])
listen_run-Sound_example =
    listen_run-Sound test_env no_results raw_conn first_block one_batch (test_world, one_open) 0 9
      (record { on_empty = refl; on_block = λ c cs. refl }) one_open-Counted refl one_batch-Reported
      (ground arith)
