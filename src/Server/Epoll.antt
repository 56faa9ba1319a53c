-- ===== src/Server/Epoll.antt =====
-- The event loop EpollServer::epollRun of audioserver/EpollServer.cpp.
--
-- A pointer to an EpollMateData is its number in `mates`, in order of `new`; nothing is freed. The
-- two callbacks are parameters, as they are in the source, and act on the connection they are given
-- and on the rest of the program's state.
-- The calls of epoll_ctl and close that the loop makes are a trace.
pub mod Count
pub mod Reconnect
pub mod Keeps
pub mod Reports
pub mod Rounds
use Prim.Native.Nat.{bit_or}
use epoll_based_fault_diagno.Base.{
  ℕ, zero, suc, ◌+◌, ◌-◌, Bool, true, false, List, [], ◌∷◌, ◌++◌, Bytes, Option, none, some, ℤ, pos,
  negsuc, is_neg, length, get_elem?, get_or, set, map, drop, ◌==◌, if◌then◌else◌,
}
use epoll_based_fault_diagno.Server.Conn.{
  Conn, invalid_client_fd, init_epoll_mate_data, new_epoll_mate_data,
}
use epoll_based_fault_diagno.Server.TaskMap.{TaskMap, add_new_node, get_node_by_id}

-- What the loop asks of the system, with the file descriptor.
pub data Call : Type 0 where
  ctl_add ctl_mod ctl_del close_fd : ℤ → Call
  -- EnDataQueue of the pointer `m_pNetMsgHeader` into the queue of results.
  enqueue_header : Option ℕ → Call

pub record Server : Type 0 where
  pub mates : List Conn
  pub trans_map : TaskMap ℕ
  pub client_cnt : ℤ
  -- `data.ptr` of the slots of `m_pEvents`.
  pub slots : List (Option ℕ)
  pub trace : List Call

-- A connection that accept brings: infd, `ip`, and what getnameinfo says of it.
pub record Accepted : Type 0 where
  pub infd : ℕ
  pub in_ip : ℕ
  pub in_port : ℕ
  pub host_buf : Bytes
  -- What OpenDataQueue returns.
  pub queue : ℕ

-- An entry of `m_pEvents`: on the listening socket, with the connections that accept brings until it
-- fails; or on a connection, with the flags EPOLLIN, EPOLLOUT, and EPOLLERR or EPOLLHUP. Its
-- `data.ptr` stands in the slot of the same index.
pub data Event : Type 0 where
  incoming : List Accepted → Event
  ready : Bool → Bool → Bool → Event

-- `m_iClientCnt++` and `m_iClientCnt--`.
unfoldable pub inc : ℤ → ℤ
inc (pos n) = pos (suc n)
inc (negsuc zero) = pos zero
inc (negsuc (suc n)) = negsuc n

unfoldable pub dec : ℤ → ℤ
dec (pos zero) = negsuc zero
dec (pos (suc n)) = pos n
dec (negsuc n) = negsuc (suc n)

unfoldable pub log_call : Call → Server → Server
log_call c s = record s { trace = s.trace ++ (c ∷ []) }

unfoldable pub put_mate : ℕ → Conn → Server → Server
put_mate p c s = record s { mates = set s.mates p c }

-- `getOldEpollMateData`: what the map holds for `ip` is overwritten with nullptr before the test.
unfoldable pub get_old_epoll_mate_data : TaskMap ℕ → ℕ → Bool × Option ℕ
get_old_epoll_mate_data m ip =
    let md : Option ℕ = (get_node_by_id m ip).0 in
    let md' : Option ℕ = none in (elim md' [ none ↦ false | some p ↦ true ], md')

-- `for (j < MAXEVENTS)`: the first slot that holds `md` is emptied.
unfoldable pub clear_slot : ℕ → List (Option ℕ) → Bool × List (Option ℕ)
clear_slot md [] = (false, [])
clear_slot md (none ∷ slots) = let (hit, slots') = clear_slot md slots in (hit, none ∷ slots')
clear_slot md (some p ∷ slots) =
    let (hit, slots') = clear_slot md slots in
    if p == md then (true, none ∷ slots) else (hit, some p ∷ slots')

-- The branch for a connection from an address that the map knows.
unfoldable pub reuse : ℕ → Conn → Server → Server
unfolding log_call put_mate clear_slot inc
reuse md c s =
    let dropped : Server =
      (if is_neg c.fd
        then record s { client_cnt = inc s.client_cnt }
        else (let (hit, slots') = clear_slot md s.slots in
            let s' = if hit then log_call (ctl_del c.fd) (record s { slots = slots' }) else s in
            log_call (close_fd c.fd) s')) in
    let queued : Server = elim c.net_msg_header [
      | none ↦ dropped
      | some h ↦ log_call (enqueue_header (some h)) dropped
    ] in
    put_mate md (init_epoll_mate_data c) queued

-- The fields that accept fills in.
unfoldable pub fill_mate : Accepted → Conn → Conn
fill_mate a c = record c { fd = pos a.infd; ip = a.in_ip; port = a.in_port; host_name = a.host_buf }

module _ (mem : ℕ → Bytes) (raw : Conn) where
  -- `new EpollMateData{}`, its queue of results, and its entry in the map.
  unfoldable pub add_mate : Accepted → Server → Server
  unfolding fill_mate inc
  add_mate a s = record s {
    client_cnt = inc s.client_cnt;
    mates =
        s.mates
        ++ (record (fill_mate a (new_epoll_mate_data mem raw)) { rs_que_wait4send = some a.queue }
            ∷ []);
    trans_map = add_new_node a.in_ip (length s.mates) s.trans_map;
  }

  -- One round of `while (true)` around accept.
  unfoldable pub accept_one : Accepted → Server → Server
  unfolding get_old_epoll_mate_data reuse add_mate log_call put_mate fill_mate
  accept_one a s =
      let (found, md) = get_old_epoll_mate_data s.trans_map a.in_ip in
      let old : Server = elim md [
        | none ↦ s
        | some p ↦ elim (get_elem? s.mates p) [
          | none ↦ s
          | some c ↦ (let s' = reuse p c s in put_mate p (fill_mate a (init_epoll_mate_data c)) s')
        ]
      ] in
      log_call (ctl_add (pos a.infd)) (if found then old else add_mate a s)

  unfoldable pub accept_all : List Accepted → Server → Server
  accept_all [] s = s
  accept_all (a ∷ more) s = accept_all more (accept_one a s)

-- "Close connection": slot `i` is emptied, and `flag` says which branch closed it.
unfoldable pub close_mate : ℕ → ℕ → ℕ → Conn → Server → Server
unfolding log_call put_mate dec
close_mate i p flag c s =
    let emptied = record s { slots = set s.slots i none; client_cnt = dec s.client_cnt } in
    put_mate p (record c { close_type = bit_or c.close_type flag; fd = invalid_client_fd })
      (log_call (close_fd c.fd) (log_call (ctl_del c.fd) emptied))

-- The callback's code decides: below 0 the connection is closed, else its event is armed again.
unfoldable pub after_callback : ℕ → ℕ → ℕ → ℤ × Conn → Server → Server
unfolding close_mate log_call put_mate
after_callback i p flag (code, c) s =
    if is_neg code then close_mate i p flag c s else log_call (ctl_mod c.fd) (put_mate p c s)

-- What a callback returns, with the state `W` that it shares with the rest of the program.
abbrev pub Callback : Type 0 → Type 0
Callback W = Conn → W → (ℤ × Conn) × W

module _ {W : Type 0} (read_cb write_cb : Callback W) where
  -- The branches on the flags of an event, in their order.
  unfoldable pub dispatch : ℕ → ℕ → Conn → Bool → Bool → Bool → W × Server → W × Server
  unfolding after_callback close_mate
  dispatch i p c true out err (w, s) =
      let (result, w') = read_cb c w in (w', after_callback i p 256 result s)
  dispatch i p c false true err (w, s) =
      let (result, w') = write_cb c w in (w', after_callback i p 512 result s)
  dispatch i p c false false true (w, s) = (w, close_mate i p 1024 c s)
  dispatch i p c false false false (w, s) = (w, s)

  -- With `if (md == nullptr) continue`.
  unfoldable pub on_ready : ℕ → Option ℕ → Bool → Bool → Bool → W × Server → W × Server
  unfolding dispatch
  on_ready i none inn out err t = t
  on_ready i (some p) inn out err t = elim (get_elem? t.1.mates p) [
    | none ↦ t
    | some c ↦ dispatch i p c inn out err t
  ]

module _ {W : Type 0} (mem : ℕ → Bytes) (raw : Conn) (read_cb write_cb : Callback W) where
  unfoldable pub handle : ℕ → Event → W × Server → W × Server
  unfolding accept_all on_ready
  handle i (incoming accepted) (w, s) = (w, accept_all mem raw accepted s)
  handle i (ready inn out err) t =
      on_ready read_cb write_cb i (get_or t.1.slots i none) inn out err t

  -- `for (i = 0; i < ready_number; ++i)`
  unfoldable pub handle_events : ℕ → List Event → W × Server → W × Server
  unfolding handle
  handle_events i [] t = t
  handle_events i (ev ∷ evs) t = handle_events (suc i) evs (handle i ev t)

  -- What epoll_wait brings: it writes the first slots.
  unfoldable pub run_round : List (Option ℕ × Event) → W × Server → W × Server
  unfolding handle_events
  run_round batch (w, s) =
      handle_events 0 (map (λ entry. entry.1) batch)
        (w, record s { slots = map (λ entry. entry.0) batch ++ drop (length batch) s.slots })

  -- The rounds until `g_isExit` is seen.
  unfoldable pub epoll_run : List (List (Option ℕ × Event)) → W × Server → W × Server
  unfolding run_round
  epoll_run [] t = t
  epoll_run (batch ∷ rounds) t = epoll_run rounds (run_round batch t)
