-- ===== src/Server/Epoll/Keeps.antt =====
-- EpollServer::epollRun (audioserver/EpollServer.cpp): what its callbacks keep, it keeps.
use epoll_based_fault_diagno.Base.{
  ℕ, suc, Bool, true, false, List, [], ◌∷◌, ◌++◌, Bytes, Option, none, some, map, drop, length,
  get_elem?, get_or, Option-cases, inl, inr,
}
use epoll_based_fault_diagno.Server.Conn.{Conn}
use epoll_based_fault_diagno.Server.Epoll.{
  Callback, Event, Server, incoming, ready, accept_all, dispatch, on_ready, handle, handle_events,
  run_round, epoll_run,
}

-- A callback keeps a property of what the callbacks share.
abbrev pub Keeps : {W : Type 0} → (W → Type 0) → Callback W → Type 0
Keeps {W = W} P cb = (c : Conn) (w : W) → P w → P ((cb c w).1)

-- What every callback keeps, the loop keeps.
module _ {W : Type 0} (P : W → Type 0) (read_cb write_cb : Callback W) (r : Keeps P read_cb)
    (w : Keeps P write_cb) where
  dispatch-Keeps :
      (i p : ℕ) (c : Conn) (inn out err : Bool) (t : W × Server)
      → P (t.0)
      → P ((dispatch read_cb write_cb i p c inn out err t).0)
  unfolding dispatch
  dispatch-Keeps i p c true out err (x, s) h = r c x h
  dispatch-Keeps i p c false true err (x, s) h = w c x h
  dispatch-Keeps i p c false false true (x, s) h = h
  dispatch-Keeps i p c false false false (x, s) h = h

  on_ready-Keeps :
      (i : ℕ) (q : Option ℕ) (inn out err : Bool) (t : W × Server)
      → P (t.0)
      → P ((on_ready read_cb write_cb i q inn out err t).0)
  unfolding on_ready
  on_ready-Keeps i none inn out err t h = h
  on_ready-Keeps i (some p) inn out err t h = elim (Option-cases (get_elem? t.1.mates p)) [
    | inl missing ↦ rw (missing, on_ready) h
    | inr (c, there) ↦ rw (there, on_ready) (dispatch-Keeps i p c inn out err t h)
  ]

  module _ (mem : ℕ → Bytes) (raw : Conn) where
    handle_events-Keeps :
        (i : ℕ) (evs : List Event) (t : W × Server)
        → P (t.0)
        → P ((handle_events mem raw read_cb write_cb i evs t).0)
    unfolding handle_events handle
    handle_events-Keeps i [] t h = h
    handle_events-Keeps i (incoming accepted ∷ evs) (x, s) h =
        handle_events-Keeps (suc i) evs (x, accept_all mem raw accepted s) h
    handle_events-Keeps i (ready inn out err ∷ evs) t h =
        handle_events-Keeps (suc i) evs
          (on_ready read_cb write_cb i (get_or t.1.slots i none) inn out err t)
          (on_ready-Keeps i (get_or t.1.slots i none) inn out err t h)

    pub epoll_run-Keeps :
        (rounds : List (List (Option ℕ × Event))) (t : W × Server)
        → P (t.0)
        → P ((epoll_run mem raw read_cb write_cb rounds t).0)
    unfolding epoll_run run_round
    epoll_run-Keeps [] t h = h
    epoll_run-Keeps (batch ∷ rounds) (x, s) h =
        epoll_run-Keeps rounds (run_round mem raw read_cb write_cb batch (x, s)) (
          handle_events-Keeps 0 (map (λ entry. entry.1) batch)
            (x, record s { slots = map (λ entry. entry.0) batch ++ drop (length batch) s.slots }) h)
