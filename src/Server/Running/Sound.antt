-- ===== src/Server/Running/Sound.antt =====
-- The whole event loop, with its callbacks (audioserver/EpollServer.cpp, audioserver/AudioServer.cpp).
use epoll_based_fault_diagno.Base.{
  ℕ, ◌≢◌, subst, ◌%◌, ◌≡◌, refl, ap, sym, List, [], Bytes, Option, none, some, ℤ, Option-cases, inl,
  inr,
}
use epoll_based_fault_diagno.Socket.{Errno, Sent}
use epoll_based_fault_diagno.Server.Conn.{Conn}
use epoll_based_fault_diagno.Server.Receive.{EnqueueCall, Env}
use epoll_based_fault_diagno.Server.Receive.Loop.{read_func, enter_read}
use epoll_based_fault_diagno.Server.Receive.Queues.{OneQueue, no_calls, read_loop-OneQueue}
use epoll_based_fault_diagno.Server.Send.{write_func}
use epoll_based_fault_diagno.Server.Epoll.{Event, Server, epoll_run}
use epoll_based_fault_diagno.Server.Epoll.Count.{KeepsFd, Counted}
use epoll_based_fault_diagno.Server.Epoll.Keeps.{Keeps, epoll_run-Keeps}
use epoll_based_fault_diagno.Server.Worker.{worker_at, worker_func}
use epoll_based_fault_diagno.Server.Worker.Starved.{worker_func_unfed}
use epoll_based_fault_diagno.Queue.{IsFifo}
use epoll_based_fault_diagno.Server.Epoll.Rounds.{Reported, epoll_run-Counted}
use epoll_based_fault_diagno.Server.Running.{
  World, next_reads, next_writes, queue_of, put_queue, read_call_back_func, write_answered,
  write_call_back_func, listen_run,
}
use epoll_based_fault_diagno.Server.Running.Sockets.{
  SendHalf, ReceiveHalf, read_func_half, write_func_half,
}

put_queue_calls :
    (q : Option ℕ) (blocks : List Bytes) (w : World) → (put_queue q blocks w).calls ≡ w.calls
put_queue_calls none blocks w = refl
put_queue_calls (some q) blocks w = refl

write_answered_lem :
    (dequeue : List Bytes → ℤ × List Bytes) (rs : List Sent) (errno : Errno)
    (more : List (List Sent × Errno)) (c : Conn) (w : World)
    → ((write_answered dequeue rs errno more c w).0.1.fd ≡ c.fd)
      × ((write_answered dequeue rs errno more c w).1.calls ≡ w.calls)
unfolding write_answered
write_answered_lem dequeue rs errno more c w =
    elim (Option-cases
      (write_func dequeue (queue_of c.rs_que_wait4send w) rs errno c w.send_stats)) [
        | inl waits ↦ rw (waits, write_answered) (refl, refl)
        | inr (o, out) ↦
            rw (out, write_answered)
              (
                ap (λ (h : ReceiveHalf). h.0)
                    (write_func_half dequeue (queue_of c.rs_que_wait4send w) rs errno c w.send_stats
                      o out),
                put_queue_calls c.rs_que_wait4send o.1
                    (record w { send_stats = o.0.stats; writes = more }),
              )
      ]

write_call_back_func_lem :
    (dequeue : List Bytes → ℤ × List Bytes) (c : Conn) (w : World)
    → ((write_call_back_func dequeue c w).0.1.fd ≡ c.fd)
      × ((write_call_back_func dequeue c w).1.calls ≡ w.calls)
unfolding write_call_back_func
write_call_back_func_lem dequeue c w =
    let ((rs, errno), more) = next_writes w.writes in write_answered_lem dequeue rs errno more c w

write_call_back_func-KeepsFd :
    (dequeue : List Bytes → ℤ × List Bytes) → KeepsFd (write_call_back_func dequeue)
unfolding KeepsFd
write_call_back_func-KeepsFd dequeue c w = (write_call_back_func_lem dequeue c w).0

read_call_back_func-KeepsFd : (e : Env) → KeepsFd (read_call_back_func e)
unfolding KeepsFd read_call_back_func
read_call_back_func-KeepsFd e c w =
    ap (λ (h : SendHalf). h.0) (read_func_half e (next_reads w.reads).0 c w.stats w.calls)

module _ (e : Env) where
  -- All messages that were enqueued went to the one queue.
  abbrev Enqueued : World → Type 0
  Enqueued w = OneQueue (1 % e.process_thread_cnt) w.calls

  read_call_back_func-Keeps : Keeps Enqueued (read_call_back_func e)
  unfolding read_call_back_func read_func enter_read
  read_call_back_func-Keeps c w h =
      read_loop-OneQueue e (next_reads w.reads).0 (enter_read c w.stats w.calls) h

  write_call_back_func-Keeps :
      (dequeue : List Bytes → ℤ × List Bytes) → Keeps Enqueued (write_call_back_func dequeue)
  write_call_back_func-Keeps dequeue c w h =
      subst (OneQueue (1 % e.process_thread_cnt)) (sym (write_call_back_func_lem dequeue c w).1) h

-- The server runs from a state in which `m_iClientCnt` counts the open connections and nothing has
-- been enqueued, over any number of rounds in which epoll_wait reports open sockets, each at most
-- once, and whatever accept, recv and send bring. Then `m_iClientCnt` counts the open connections
-- still; and where DeDataQueue takes the oldest block of a queue, a worker thread with another index
-- than 1 modulo the number of threads has, after any number of its rounds, taken no message of any
-- connection.
pub listen_run-Sound :
    (e : Env) (dequeue : List Bytes → ℤ × List Bytes) (raw : Conn)
    (take_block : List EnqueueCall → Option (EnqueueCall × List EnqueueCall))
    (rounds : List (List (Option ℕ × Event))) (t : World × Server) (idx steps : ℕ)
    → IsFifo take_block
    → Counted t.1
    → t.0.calls ≡ []
    → Reported e.mem raw (read_call_back_func e) (write_call_back_func dequeue) rounds t
    → idx ≢ 1 % e.process_thread_cnt
    → let (w, s) = listen_run e dequeue raw rounds t in
      Counted s × ((worker_func take_block steps (worker_at e idx w.calls)).taken ≡ [])
unfolding listen_run
listen_run-Sound e dequeue raw take_block rounds t idx steps oldest counted fresh reported other = (
  epoll_run-Counted e.mem raw (read_call_back_func e) (write_call_back_func dequeue)
      (read_call_back_func-KeepsFd e) (write_call_back_func-KeepsFd dequeue) rounds t reported
      counted,
  worker_func_unfed take_block oldest e
      (epoll_run e.mem raw (read_call_back_func e) (write_call_back_func dequeue) rounds t).0.calls
      idx steps
      (epoll_run-Keeps (Enqueued e) (read_call_back_func e) (write_call_back_func dequeue)
        (read_call_back_func-Keeps e) (write_call_back_func-Keeps e dequeue) e.mem raw rounds t
        (subst (OneQueue (1 % e.process_thread_cnt)) (sym fresh) no_calls))
      other,
)
