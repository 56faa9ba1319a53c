-- ===== src/Server/Epoll/Rounds.antt =====
-- Whole rounds of EpollServer::epollRun (audioserver/EpollServer.cpp).
use mathlib.Core.Option
use epoll_based_fault_diagno.Base.{
  ℕ, suc, sym, subst, List, [], ◌∷◌, ◌++◌, Bytes, Option, none, some, length, map, drop,
}
use epoll_based_fault_diagno.Server.Conn.{Conn}
use epoll_based_fault_diagno.Server.Epoll.{
  Callback, Event, Server, incoming, ready, accept_all, on_ready, handle, handle_events, run_round,
  epoll_run,
}
use epoll_based_fault_diagno.Server.Epoll.Count.{
  KeepsFd, Counted, accept_all-Counted, on_ready-Counted,
}
use epoll_based_fault_diagno.Server.Epoll.Reports.{
  LiveAt, Reports, Aligned, Aligned-start, accept_all-LiveAt, accept_all-slots, Reports-mono,
  Reports-Spares, on_ready-Spares,
}

module _ {W : Type 0} (mem : ℕ → Bytes) (raw : Conn) (read_cb write_cb : Callback W) where
  -- epoll_wait keeps its promise in each round.
  unfoldable pub Reported : List (List (Option ℕ × Event)) → W × Server → Type 0
  Reported [] t = Unit {0}
  Reported (batch ∷ rounds) t =
      Reports t.1 batch × Reported rounds (run_round mem raw read_cb write_cb batch t)

module _ {W : Type 0} (mem : ℕ → Bytes) (raw : Conn) (read_cb write_cb : Callback W)
    (r : KeepsFd read_cb) (w : KeepsFd write_cb) where
  handle_events-Counted :
      (i : ℕ) (batch : List (Option ℕ × Event)) (t : W × Server)
      → Aligned i batch t.1.slots
      → Reports (t.1) batch
      → Counted t.1
      → Counted (handle_events mem raw read_cb write_cb i (map (λ entry. entry.1) batch) t).1
  unfolding handle_events Aligned Reports LiveAt
  handle_events-Counted i [] t aligned v counted = counted
  handle_events-Counted i ((q, incoming accepted) ∷ rest) (x, s) (at, aligned) v counted =
      let s' = accept_all mem raw accepted s in
      (unfold handle in
        handle_events-Counted (suc i) rest (x, s')
          (subst (Aligned (suc i) rest) (sym (accept_all-slots mem raw accepted s)) aligned)
          (Reports-mono s s' rest (accept_all-LiveAt mem raw accepted s) v)
          (accept_all-Counted mem raw accepted s counted))
  handle_events-Counted i ((none, ready inn out err) ∷ rest) t (at, aligned) v counted =
      rw (at, handle_events, handle) (handle_events-Counted (suc i) rest t aligned v counted)
  handle_events-Counted i ((some p, ready inn out err) ∷ rest) t (at, aligned) (live, away, v)
        counted =
      let t' = on_ready read_cb write_cb i (some p) inn out err t in
      let spares = on_ready-Spares read_cb write_cb i p inn out err t in
      rw (at, handle_events, handle)
        (handle_events-Counted (suc i) rest t' (spares.same_slots rest aligned)
          (Reports-Spares i p t.1 t'.1 rest spares away v)
          (on_ready-Counted read_cb write_cb r w i inn out err t (some p)
            (λ p' c same there. live c (rw (Option.some-injective p p' same) there)) counted))

  run_round-Counted :
      (batch : List (Option ℕ × Event)) (t : W × Server)
      → Reports (t.1) batch
      → Counted t.1
      → Counted (run_round mem raw read_cb write_cb batch t).1
  unfolding run_round LiveAt Counted
  run_round-Counted batch (x, s) v counted =
      let slots' = map (λ entry. entry.0) batch ++ drop (length batch) s.slots in
      handle_events-Counted 0 batch (x, record s { slots = slots' })
        (Aligned-start batch (drop (length batch) s.slots))
        (Reports-mono s (record s { slots = slots' }) batch (λ p live. live) v) counted

  -- For callbacks that leave the sockets of their connections alone, over any number of rounds in
  -- which epoll_wait reports open sockets, each at most once: `m_iClientCnt` is at the end the number
  -- of connections whose socket is open.
  pub epoll_run-Counted :
      (rounds : List (List (Option ℕ × Event))) (t : W × Server)
      → Reported mem raw read_cb write_cb rounds t
      → Counted t.1
      → Counted (epoll_run mem raw read_cb write_cb rounds t).1
  unfolding epoll_run Reported
  epoll_run-Counted [] t v counted = counted
  epoll_run-Counted (batch ∷ rounds) t (now, later) counted =
      epoll_run-Counted rounds (run_round mem raw read_cb write_cb batch t) later
        (run_round-Counted batch t now counted)
